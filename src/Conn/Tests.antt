-- ===== src/Conn/Tests.antt =====
-- What one connection hears, written out, and the theorems on its host, set-up and transfer at it.
use condukt.Prelude.{
  err, ℕ, List, ◌≡◌, ◌↔◌, Any, inl, refl, true, false, ◌&&◌, [], ◌∷◌, ◌++◌, none, some, Str, codes,
  All, arith, if◌then◌else◌, ok,
}
use condukt.Prelude.Bytes.{Bytes, from_utf8, lines}
use condukt.Event.{SocketAddr, Request}
use condukt.Sni.{TlsParser, looks_like_tls}
use condukt.Http1
use condukt.Http1.{Head}
use condukt.H2.Connection
use condukt.H2.Connection.{Connection, polls}
use condukt.Conn.Outcome.{first_error}
use condukt.Conn.Host.{identify_host}
use condukt.Conn.Host.Header.{FirstHost, HasNoHost, identify_host_plain}
use condukt.Sni.Names.{names}
use condukt.Conn.Host.ServerName.{first_or, identify_host_tls}
use condukt.Conn.Transfer.{chunk, Streams, stopped, exchange}
use condukt.Conn.Transfer.Integrity.{IsFaithful, exchange-IsFaithful}
use condukt.Conn.Transfer.Counting.{IsCounted, exchange-IsCounted}
use condukt.Conn.Https.{TlsAnswers, is_h2, https_mitm}
use condukt.Conn.Https.Setup.{steps, https_mitm-first_error}
use condukt.Conn.Handle.{Answers, request_of}
use condukt.Conn.Roots.{
  x509_certificate, other, roots_path, Store, client_config, build_tls_connector,
}
use condukt.Conn.Roots.Loading.{connectors, OccursIn, connectors_share_roots}

-- a parser to which nothing is TLS
abbrev pub no_tls : TlsParser
no_tls = record { parse_tls_plaintext = λ b. none; parse_tls_extensions = λ b. none }

abbrev pub request_text : Str
request_text = codes "GET / HTTP/1.1" ++ 13 ∷ 10 ∷ codes "host:  a.org" ++ 13 ∷ 10 ∷ []

abbrev streams : Streams
streams = record {
  client_reads = chunk (1 ∷ 2 ∷ []) ∷ chunk (3 ∷ []) ∷ [];
  upstream_reads = chunk (4 ∷ 5 ∷ 6 ∷ []) ∷ chunk [] ∷ [];
  head_write = none;
  upstream_writes = [];
  client_writes = [];
  finished = 9;
}

-- a parser that gives up at once
abbrev parse_head : Bytes → Head
parse_head b = Http1.error

-- an HTTP/2 connection with one stream, whose upstream answers
abbrev h2 : Connection
h2 = record {
  spawn = none;
  runtime = none;
  handshake = none;
  exchanges = record {
    request = λ t. record { method = codes "GET"; path_and_query = none; headers = [] };
    answers = λ t. record { id = t ∷ []; clock = λ k. k; sent = some 204; send_error = [] };
  };
  turns = polls 0 ∷ polls 0 ∷ polls 0 ∷ [];
  serve = none;
  completes = true;
}

abbrev https : TlsAnswers
https = record {
  server_config = none;
  accept = none;
  client_alpn = codes "h2";
  server_name = none;
  connect = some (codes "timed out");
  upstream_tls = none;
  upstream_alpn = codes "h2";
  h2 = h2;
}

abbrev pub destination : SocketAddr
destination = record { ip = codes "10.0.0.1"; port = 80; shown = codes "10.0.0.1:80" }

abbrev pub answers : Answers
answers = record {
  session_id = none;
  peer_addr = none;
  little_endian = true;
  getsockopt = λ level optname. record {
    rc = 0;
    addr = record { port_0 = 0; port_1 = 80; addr_0 = 10; addr_1 = 0; addr_2 = 0; addr_3 = 1 };
    last_os_error = codes "";
  };
  peek = some request_text;
  id = codes "id";
  clock = λ t. t;
  tls = no_tls;
  decider = none;
  https = https;
  connect = none;
  httparse = λ buf. Http1.malformed;
  streams = streams;
}

abbrev pub request : Request
request = request_of answers destination (codes "a.org")

is_text : from_utf8 request_text ≡ some request_text
unfolding from_utf8
is_text = refl

is_plain : looks_like_tls request_text ≡ false
unfolding looks_like_tls
is_plain = refl

identify_host_plain_example :
    ((value : Str)
      → FirstHost (lines request_text) value
      → identify_host no_tls request_text 80 (codes "10.0.0.1") ≡ value)
    × (All HasNoHost (lines request_text)
        → identify_host no_tls request_text 80 (codes "10.0.0.1") ≡ codes "10.0.0.1")
identify_host_plain_example =
    identify_host_plain no_tls request_text 80 (codes "10.0.0.1") request_text
      (λ e. absurd (omega (arith, e))) is_plain is_text

exchanged : (exchange parse_head streams request).outcome ≡ ok tt
unfolding exchange
exchanged = refl

exchange-IsFaithful_example : IsFaithful streams (exchange parse_head streams request)
exchange-IsFaithful_example = exchange-IsFaithful parse_head streams request

exchange-IsCounted_example : IsCounted parse_head streams (exchange parse_head streams request)
exchange-IsCounted_example = exchange-IsCounted parse_head streams request exchanged tt tt

https_mitm-first_error_example :
    https_mitm https parse_head streams request ≡ elim (first_error (steps https)) [
      | some e ↦ stopped e request
      | none ↦
          if is_h2 (codes "h2") && is_h2 (codes "h2")
          then record {
            outcome = ok tt;
            request = request;
            to_upstream = [];
            to_client = [];
            streams = (Connection.handle h2 request).1;
          }
          else exchange parse_head streams request
    ]
https_mitm-first_error_example = https_mitm-first_error https parse_head streams request

-- the plain text names a host, and the connection is to port 443
identify_host_tls_example :
    identify_host no_tls request_text 443 (codes "10.0.0.1")
    ≡ first_or (names no_tls request_text) (codes "10.0.0.1")
identify_host_tls_example = identify_host_tls no_tls request_text 443 (codes "10.0.0.1") (inl refl)

-- a file with a certificate, a key, and a broken item in front of a second certificate
abbrev store : Store ℕ
store = record {
  read = λ path.
      some (ok (x509_certificate 1) ∷ ok other ∷ err (codes "bad") ∷ ok (x509_certificate 2) ∷ []);
  accepts = λ der. true;
}

-- the file has gone
abbrev no_store : Store ℕ
no_store = record store { read = λ path. none }

-- the first certificate alone is a root
first_root : ◌≡◌ {A = List ℕ} (client_config store).roots (1 ∷ [])
unfolding client_config
first_root = refl

-- a connector that is built later keeps the roots of the first
kept_roots :
    (build_tls_connector no_store (build_tls_connector store none).1).0 ≡ ok (client_config store)
unfolding build_tls_connector
kept_roots = refl

connectors_share_roots_example :
    All (λ o. o ≡ ok (client_config store)) (connectors (store ∷ no_store ∷ []) none)
    × ((der : ℕ)
        → Any (λ d. d ≡ der) (client_config store).roots
          ↔ ((store.accepts der ≡ true) × OccursIn der (store.read roots_path)))
connectors_share_roots_example = connectors_share_roots store (no_store ∷ [])
