-- ===== src/Conn/Https.antt =====
-- `https_mitm` and `http_forward`: the steps up to the exchange, each with its label on failure.
pub mod Calls
pub mod Setup
use condukt.Prelude.{
  Bool, true, false, ◌&&◌, Option, none, some, Str, codes, str_eq, [], ok, err, ◌>>=◌,
}
use condukt.Prelude.Bytes.{Bytes}
use condukt.Http1.{Head}
use condukt.Event.{Request}
use condukt.Tls.Minting.{TlsError, to_string}
use condukt.Conn.Outcome.{Outcome, labelled}
use condukt.H2.Connection
use condukt.H2.Connection.{Connection}
use condukt.Conn.Transfer.{Streams, Transfer, stopped, exchange}

-- The answers of the outside; `none` is success and `some e` an error with its text.
pub record TlsAnswers : Type 0 where
  pub server_config : Option TlsError
  pub accept : Option Str
  pub client_alpn : Str
  pub server_name : Option Str
  pub connect : Option Str
  pub upstream_tls : Option Str
  pub upstream_alpn : Str
  pub h2 : Connection

infixl 5 ◌>>◌
abbrev pub ◌>>◌ {ℓ} : {B : Type ℓ} → Outcome (Unit {0}) → Outcome B → Outcome B
m >> k = m >>= λ _. k

abbrev pub check : Str → Option Str → Outcome (Unit {0})
check label none = ok tt
check label (some e) = err (labelled label e)

-- the error of `server_config_for` as text
abbrev pub error_text : Option TlsError → Option Str
error_text none = none
error_text (some e) = some (to_string e)

-- the error of the handshake is dropped for a fixed label
abbrev pub check_accept : Option Str → Outcome (Unit {0})
check_accept none = ok tt
check_accept (some e) = err (codes "tls_client_rejected_ca")

abbrev pub is_h2 : Str → Bool
is_h2 alpn = str_eq alpn (codes "h2")

-- The steps before the exchange; `true` goes on with HTTP/2, whose bytes are carried by the crate
-- `hyper` and are not part of the result. `build_tls_connector` always succeeds.
unfoldable pub https_setup : TlsAnswers → Outcome Bool
unfolding to_string
https_setup a = do
  check (codes "server_config") (error_text a.server_config)
  check_accept a.accept
  check (codes "sni") a.server_name
  check (codes "upstream_unreachable") a.connect
  check (codes "upstream_tls") a.upstream_tls
  ok (is_h2 a.client_alpn && is_h2 a.upstream_alpn)

abbrev pub https_rest : Outcome Bool → TlsAnswers → (Bytes → Head) → Streams → Request → Transfer
https_rest (err e) a parse s request = stopped e request
https_rest (ok true) a parse s request = record {
  outcome = (Connection.handle a.h2 request).0;
  request = request;
  to_upstream = [];
  to_client = [];
  streams = (Connection.handle a.h2 request).1;
}
https_rest (ok false) a parse s request = exchange parse s request

unfoldable pub https_mitm : TlsAnswers → (Bytes → Head) → Streams → Request → Transfer
unfolding https_setup exchange Connection.handle
https_mitm a parse s request = https_rest (https_setup a) a parse s request

abbrev pub http_rest : Option Str → (Bytes → Head) → Streams → Request → Transfer
http_rest (some e) parse s request = stopped (labelled (codes "upstream_unreachable") e) request
http_rest none parse s request = exchange parse s request

unfoldable pub http_forward : Option Str → (Bytes → Head) → Streams → Request → Transfer
unfolding exchange
http_forward connect parse s request = http_rest connect parse s request
