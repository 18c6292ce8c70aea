-- ===== src/Conn/Handle/Accepting.antt =====
-- When the handler comes to the client's handshake.
use condukt.Prelude.{
  ℕ, Bool, true, false, ◌≡◌, refl, inl, inr, List, ◌∷◌, ◌++◌, Option, none, some, Str, Any, ◌==◌,
  ==_iff, if◌then◌else◌,
}
use condukt.Policy
use condukt.Policy.{Policy, MatchedRule, evaluate}
use condukt.Event.{SocketAddr, https_port, Request}
use condukt.Control.{Query}
use condukt.Tls.Minting.{TlsError}
use condukt.Conn.Https.{TlsAnswers, error_text}
use condukt.Conn.Https.Calls.{Call, onward, https_calls, forward_calls}
use condukt.Conn.Handle.{
  Answers, Effect, emits, asks, shuts_down, transfers, denial_reason, asking, calls_of, settle,
  query_of, request_of, handle_host,
}

abbrev pub IsAccept : Call → Type 0
IsAccept (Call.server_config_for h) = ⊥
IsAccept Call.accept = Unit
IsAccept (Call.try_from h) = ⊥
IsAccept (Call.connect d) = ⊥
IsAccept (Call.connect_tls h) = ⊥

-- a transfer that comes to the client's handshake
abbrev pub IsAccepting : Effect → Type 0
IsAccepting (transfers calls t) = Any IsAccept calls
IsAccepting (emits e) = ⊥
IsAccepting (asks q timeout) = ⊥
IsAccepting shuts_down = ⊥

after_config :
    (host : Str) (c : Option TlsError) (rest : List Call)
    → Any IsAccept (Call.server_config_for host ∷ onward (error_text c) rest)
    → c ≡ none
after_config host none rest x = refl
after_config host (some e) rest (inl x) = absurd x
after_config host (some e) rest (inr x) = absurd x

https_calls-Accepts :
    (host : Str) (dst : SocketAddr) (a : TlsAnswers)
    → Any IsAccept (https_calls host dst a)
    → a.server_config ≡ none
unfolding https_calls
https_calls-Accepts host dst a x = after_config host a.server_config _ x

calls_of-Accepts :
    (a : Answers) (dst : SocketAddr) (r : Request)
    → Any IsAccept (calls_of a dst r)
    → (dst.port ≡ https_port) × (a.https.server_config ≡ none)
calls_of-Accepts a dst r x =
    by_port (dst.port == https_port) (λ e. (==_iff dst.port https_port).0 e) x
  where
    by_port :
        (own : Bool)
        → (own ≡ true → dst.port ≡ https_port)
        → Any IsAccept (if own then https_calls r.host dst a.https else forward_calls dst)
        → (dst.port ≡ https_port) × (a.https.server_config ≡ none)
    by_port true e y = (e refl, https_calls-Accepts r.host dst a.https y)
    by_port false e (inl y) = absurd y
    by_port false e (inr y) = absurd y

settle-Accepts :
    (a : Answers) (dst : SocketAddr) (r : Request) (rule : Option MatchedRule) (denial : Option Str)
    → Any IsAccepting (settle a dst r rule denial)
    → (denial ≡ none) × (dst.port ≡ https_port) × (a.https.server_config ≡ none)
settle-Accepts a dst r rule (some reason) (inl x) = absurd x
settle-Accepts a dst r rule (some reason) (inr (inl x)) = absurd x
settle-Accepts a dst r rule (some reason) (inr (inr x)) = absurd x
settle-Accepts a dst r rule none (inl x) = absurd x
settle-Accepts a dst r rule none (inr (inl x)) =
    let (port, config) = calls_of-Accepts a dst r x in (refl, port, config)
settle-Accepts a dst r rule none (inr (inr (inl x))) = absurd x
settle-Accepts a dst r rule none (inr (inr (inr x))) = absurd x

asking-Accepts :
    (d : Policy.Decision) (q : Query) (timeout : ℕ) (rest : List Effect)
    → Any IsAccepting (asking d q timeout ++ rest)
    → Any IsAccepting rest
asking-Accepts Policy.Decision.allow q timeout rest x = x
asking-Accepts (Policy.Decision.deny r) q timeout rest x = x
asking-Accepts Policy.Decision.decide q timeout rest (inl x) = absurd x
asking-Accepts Policy.Decision.decide q timeout rest (inr x) = x

-- only where the connection is let through on port 443, and `server_config_for` has succeeded
pub handle_host-Accepts :
    (a : Answers) (p : Policy) (dst : SocketAddr) (host : Str)
    → Any IsAccepting (handle_host a p dst host)
    → (denial_reason (evaluate p host).0 a.decider ≡ none)
      × (dst.port ≡ https_port)
      × (a.https.server_config ≡ none)
unfolding handle_host
handle_host-Accepts a p dst host (inl x) = absurd x
handle_host-Accepts a p dst host (inr x) =
    settle-Accepts a dst (request_of a dst host) (evaluate p host).1 _ (
      asking-Accepts (evaluate p host).0 (query_of (request_of a dst host)) p.decide_timeout_ms _ x)
