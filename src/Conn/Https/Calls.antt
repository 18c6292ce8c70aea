-- ===== src/Conn/Https/Calls.antt =====
-- The calls of `https_mitm` and `http_forward` in front of the exchange, with their arguments.
use condukt.Prelude.{List, [], ◌∷◌, Option, none, some, Str}
use condukt.Event.{SocketAddr}
use condukt.Conn.Https.{TlsAnswers, error_text}

-- `CaContext::server_config_for`, `TlsAcceptor::accept`, `ServerName::try_from`,
-- `TcpStream::connect`, and `TlsConnector::connect` for a server's name
pub data Call : Type 0 where
  server_config_for : Str → Call
  accept : Call
  try_from : Str → Call
  connect : SocketAddr → Call
  connect_tls : Str → Call

-- a call that fails is the last one
abbrev pub onward : Option Str → List Call → List Call
onward none rest = rest
onward (some e) rest = []

unfoldable pub https_calls : Str → SocketAddr → TlsAnswers → List Call
https_calls host dst a =
    Call.server_config_for host
    ∷ onward (error_text a.server_config) (
        Call.accept
        ∷ onward a.accept (
            Call.try_from host
            ∷ onward a.server_name
                (Call.connect dst ∷ onward a.connect (Call.connect_tls host ∷ []))))

abbrev pub forward_calls : SocketAddr → List Call
forward_calls dst = Call.connect dst ∷ []
