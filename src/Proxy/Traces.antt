-- ===== src/Proxy/Traces.antt =====
-- What each connection of a run has done: a beginning of `handle`'s effects.
pub mod Advance
pub mod Kept
use condukt.Prelude.{
  Bool, true, false, ◌==◌, ==_iff, ◌≡◌, refl, sym, ap, ◌∙◌, subst, List, [], ◌∷◌, ◌++◌, Option,
  none, some, Str, append_assoc, append-nil, arith,
}
use condukt.Policy
use condukt.Policy.{Policy, evaluate}
use condukt.Event.{SocketAddr, Event, https_port}
use condukt.Tls
use condukt.Tls.Minting.{TlsError}
use condukt.Control
use condukt.Control.{Phase}
use condukt.Conn.Handle.{
  Answers, Effect, emits, transfers, denial_reason, settle, serve, calls_of, request_of,
  handle_host,
}
use condukt.Conn.Stages.{
  Stage, identified, begun, stage_of, allowed_event, with_config, transfer_of, opening, resume,
  carry, secure, advance,
}

-- the answers of the outside with what `request_decision` and `server_config_for` ended with
abbrev pub with_answers : Answers → Option Control.Decision → Option TlsError → Answers
with_answers a v c = record (with_config a c) { decider = v }

-- The decision `v` is what the connection's call returned, if the policy asks for one.
abbrev pub IsAnswer : Policy → Str → Phase → Option Control.Decision → Type 0
IsAnswer p host phase v = (evaluate p host).0 ≡ Policy.Decision.decide → phase ≡ Phase.returned v

-- The call of `server_config_for` has ended, without an error or with this one.
abbrev pub Ends : {S : Type 0} → Tls.Phase S → Option TlsError → Type 0
Ends {S} own none = (cfg : S) × (own ≡ Tls.Phase.returned cfg)
Ends own (some e) = own ≡ Tls.Phase.failed e

-- It has, if the connection comes to it.
abbrev pub IsConfigured :
    {S : Type 0}
    → Policy
    → SocketAddr
    → Str
    → Option Control.Decision
    → Tls.Phase S
    → Option TlsError
    → Type 0
IsConfigured p dst host v own c =
    denial_reason (evaluate p host).0 v ≡ none → dst.port ≡ https_port → Ends own c

-- what an allowed connection has done when it transfers
abbrev pub carried : Policy → Answers → SocketAddr → Str → List Effect
carried p a dst host =
    emits (allowed_event p a dst host)
    ∷ transfers (calls_of a dst (request_of a dst host)) (transfer_of a dst host)
    ∷ []

-- Where a handler stands, from the phases of its calls, and what it has done.
pub data Tracks {S : Type 0} (p : Policy) (a : Answers) (phase : Phase) (own : Tls.Phase S)
    : Stage → List Effect → Type 0 where
  at_start : {tr : List Effect} → tr ≡ [] → Tracks p a phase own Stage.accepted tr
  at_decision :
      {tr : List Effect} {dst : SocketAddr} {host : Str}
      → identified a ≡ some (dst, host)
      → (evaluate p host).0 ≡ Policy.Decision.decide
      → tr ≡ begun p a dst host
      → Tracks p a phase own (Stage.deciding dst host) tr
  at_settled :
      {tr : List Effect} {dst : SocketAddr} {host : Str} {reason : Option Str}
      (v : Option Control.Decision)
      → identified a ≡ some (dst, host)
      → IsAnswer p host phase v
      → denial_reason (evaluate p host).0 v ≡ reason
      → tr ≡ begun p a dst host
      → Tracks p a phase own (Stage.settled dst host reason) tr
  at_securing :
      {tr : List Effect} {dst : SocketAddr} {host : Str} (v : Option Control.Decision)
      → identified a ≡ some (dst, host)
      → IsAnswer p host phase v
      → denial_reason (evaluate p host).0 v ≡ none
      → tr ≡ begun p a dst host ++ emits (allowed_event p a dst host) ∷ []
      → Tracks p a phase own (Stage.securing dst host) tr
  at_serving :
      {tr : List Effect} {dst : SocketAddr} {host : Str} {es : List Event}
      (v : Option Control.Decision) (c : Option TlsError)
      → identified a ≡ some (dst, host)
      → IsAnswer p host phase v
      → IsConfigured p dst host v own c
      → denial_reason (evaluate p host).0 v ≡ none
      → tr ≡ begun p a dst host ++ carried p (with_config a c) dst host
      → Tracks p a phase own (Stage.serving dst host (transfer_of (with_config a c) dst host) es) tr
  at_end :
      {tr : List Effect} {dst : SocketAddr} {host : Str} (v : Option Control.Decision)
      (c : Option TlsError)
      → identified a ≡ some (dst, host)
      → IsAnswer p host phase v
      → IsConfigured p dst host v own c
      → tr ≡ handle_host (with_answers a v c) p dst host
      → Tracks p a phase own Stage.finished tr
  at_end_unknown :
      {tr : List Effect} → identified a ≡ none → tr ≡ [] → Tracks p a phase own Stage.finished tr

module _ (p : Policy) (a : Answers) where
  pub handle_host_by :
      (dst : SocketAddr) (host : Str) (v : Option Control.Decision) (c : Option TlsError)
      (reason : Option Str)
      → denial_reason (evaluate p host).0 v ≡ reason
      → handle_host (with_answers a v c) p dst host
        ≡ begun p a dst host
          ++ settle (with_config a c) dst (request_of a dst host) (evaluate p host).1 reason
  unfolding handle_host begun
  handle_host_by dst host v c reason e =
      ap
        (λ r.
          begun p a dst host
          ++ settle (with_config a c) dst (request_of a dst host) (evaluate p host).1 r)
        e
