-- ===== src/Proxy/Verified.antt =====
-- Whose name the connections of a run present, connect to and verify.
use condukt.Prelude.{ℕ, ◌≡◌, ap, ◌∙◌, List, Option, some, Str, All, All-part}
use condukt.Policy.{Policy}
use condukt.Event.{SocketAddr, Inbound}
use condukt.Conn.Handle.{Answers}
use condukt.Conn.Handle.Verified.{IsSecured, handle_host-IsSecured}
use condukt.Conn.Stages.{identified}
use condukt.Proxy.{Proxy, Run}
use condukt.Proxy.Traces.{with_answers}
use condukt.Proxy.Identified.{handled, handle_by}
use condukt.Proxy.Handling.{Run-Handles}

-- Whatever order the handlers, their calls, the reader and the writer run in: every call by which an
-- identified connection sets up its transfer is for the identified host, the one that the policy
-- judges, or to the connection's original destination. On port 443 nothing is carried unless all
-- calls were made, from the leaf's configuration for that host and the client's handshake to the
-- connection to the destination, and the last one has verified the upstream's certificate for that
-- host.
pub Run-IsSecured :
    {S : Type 0} {Mints : Str → S → Type 0} {p : Policy} {a : ℕ → Answers}
    {lines : List (Option Inbound)} {s : Proxy S} (t : ℕ) (dst : SocketAddr) (host : Str)
    → Run p a Mints lines s
    → identified (a t) ≡ some (dst, host)
    → All (IsSecured (a t).https.upstream_tls dst host) (s.trace t)
unfolding identified
Run-IsSecured {p = p} {a} {s = s} t dst host r i =
    let h = Run-Handles t r in
    let connection = with_answers (a t) h.decider h.config in
    All-part (IsSecured (a t).https.upstream_tls dst host) (s.trace t) h.rest _
      (h.whole ∙ (handle_by connection p ∙ ap (handled connection p) i))
      (handle_host-IsSecured dst host connection p)
