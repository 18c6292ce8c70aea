-- ===== src/Conn/Handle/Contact.antt =====
-- When the handler goes on to the upstream.
use condukt.Prelude.{
  ℕ, ◌≡◌, refl, ap, ◌∙◌, ◌↔◌, ◌⊎◌, inl, inr, List, [], ◌∷◌, ◌++◌, Option, none, some, Str, codes,
  All, Any, arith, to_ascii_lowercase, ok,
}
use condukt.Prelude.Bytes.{Bytes}
use condukt.Policy
use condukt.Policy.{
  Action, Policy, MatchedRule, DenyReason, default_deny, as_str, default_decision, evaluate,
  matched,
}
use condukt.Policy.FirstMatch.Rules.{Continues}
use condukt.Policy.FirstMatch.{evaluate-FirstMatch}
use condukt.Event.{
  SocketAddr, Request, DecisionAction, request_opened, request_denied, new_event, with_reason,
  with_matched_rule,
}
use condukt.Control
use condukt.Control.{Query}
use condukt.OrigDst.{original_dst}
use condukt.Conn.Host.{identify_host}
use condukt.Conn.Handle.{
  Answers, Effect, emits, asks, shuts_down, transfers, denial_reason, asking, settle, query_of,
  request_of, handle_host, handle,
}

abbrev pub IsTransfer : Effect → Type 0
IsTransfer (transfers calls t) = Unit
IsTransfer (emits e) = ⊥
IsTransfer (asks q timeout) = ⊥
IsTransfer shuts_down = ⊥

-- The policy allows the host, or leaves it to the decider, who answered with an allowance.
abbrev pub IsPermitted : Policy.Decision → Option Control.Decision → Type 0
IsPermitted d decider =
    (d ≡ Policy.Decision.allow)
    ⊎ ((d ≡ Policy.Decision.decide)
        × ((v : Control.Decision) × (decider ≡ some v) × (v.action ≡ DecisionAction.allow)))

IsPermitted-of_no_denial :
    (d : Policy.Decision) (o : Option Control.Decision) → denial_reason d o ≡ none → IsPermitted d o
unfolding denial_reason
IsPermitted-of_no_denial Policy.Decision.allow o h = inl refl
IsPermitted-of_no_denial (Policy.Decision.deny r) o h = absurd (ground arith)
IsPermitted-of_no_denial Policy.Decision.decide none h = absurd (ground arith)
IsPermitted-of_no_denial Policy.Decision.decide (some v) h = inr (refl, (v, refl, ground arith))

no_denial_of_permitted :
    (d : Policy.Decision) (o : Option Control.Decision) → IsPermitted d o → denial_reason d o ≡ none
unfolding denial_reason
no_denial_of_permitted d o (inl e) = rw e
no_denial_of_permitted d o (inr (e, (v, f, g))) = ground arith

IsTransfer-of_asking :
    (d : Policy.Decision) (q : Query) (timeout : ℕ) (rest : List Effect)
    → Any IsTransfer (asking d q timeout ++ rest) ↔ Any IsTransfer rest
IsTransfer-of_asking Policy.Decision.allow q timeout rest = (λ h. h, λ h. h)
IsTransfer-of_asking (Policy.Decision.deny r) q timeout rest = (λ h. h, λ h. h)
IsTransfer-of_asking Policy.Decision.decide q timeout rest =
    (λ h. elim h [ inl x ↦ absurd x | inr y ↦ y ], λ h. inr h)

IsTransfer-of_settle :
    (a : Answers) (dst : SocketAddr) (r : Request) (rule : Option MatchedRule) (denial : Option Str)
    → Any IsTransfer (settle a dst r rule denial) ↔ (denial ≡ none)
IsTransfer-of_settle a dst r rule none = (λ h. refl, λ h. inr (inl tt))
IsTransfer-of_settle a dst r rule (some reason) = (
  λ h. elim h [ inl x ↦ absurd x | inr (inl x) ↦ absurd x | inr (inr x) ↦ absurd x ],
  λ h. absurd (ground arith),
)

pub IsTransfer-of_handle_host :
    (a : Answers) (p : Policy) (dst : SocketAddr) (host : Str)
    → Any IsTransfer (handle_host a p dst host) ↔ IsPermitted (evaluate p host).0 a.decider
unfolding handle_host
IsTransfer-of_handle_host a p dst host =
    let d = (evaluate p host).0 in
    let rule = (evaluate p host).1 in
    let r = request_of a dst host in
    let denial = denial_reason d a.decider in
    let asked =
      IsTransfer-of_asking d (query_of r) p.decide_timeout_ms (settle a dst r rule denial) in
    let settled = IsTransfer-of_settle a dst r rule denial in
    (
      λ h. elim h [
        | inl x ↦ absurd x
        | inr y ↦ IsPermitted-of_no_denial d a.decider (settled.0 (asked.0 y))
      ],
      λ h. inr (asked.1 (settled.1 (no_denial_of_permitted d a.decider h))),
    )

-- the handler of a host, once the decision is known
host_effects :
    (a : Answers) (p : Policy) (dst : SocketAddr) (host : Str)
    → Policy.Decision
    → Option MatchedRule
    → List Effect
host_effects a p dst host d rule =
    emits (new_event (a.clock 1) request_opened (request_of a dst host))
    ∷ (asking d (query_of (request_of a dst host)) p.decide_timeout_ms
        ++ settle a dst (request_of a dst host) rule (denial_reason d a.decider))

handle_host_decided :
    (a : Answers) (p : Policy) (dst : SocketAddr) (host : Str) {d : Policy.Decision}
    {rule : Option MatchedRule}
    → evaluate p host ≡ (d, rule)
    → handle_host a p dst host ≡ host_effects a p dst host d rule
unfolding handle_host host_effects
handle_host_decided a p dst host e =
    ap (λ (v : Policy.Decision × Option MatchedRule). host_effects a p dst host v.0 v.1) e

evaluate_default_deny :
    (p : Policy) (host : Str)
    → p.default ≡ Action.deny
    → All (Continues (to_ascii_lowercase host)) p.rules
    → evaluate p host ≡ (Policy.Decision.deny default_deny, none)
evaluate_default_deny p host e c =
    (evaluate-FirstMatch p host (Policy.Decision.deny default_deny) (matched 0 [])).1.1
      (c, rw e (unfold default_decision in refl))

module _ (a : Answers) (p : Policy) (dst : SocketAddr) (bytes : Bytes) (host : Str)
    (redirected : original_dst a.little_endian a.getsockopt ≡ ok dst) (peeked : a.peek ≡ some bytes)
    (identified : identify_host a.tls bytes dst.port dst.ip ≡ host) where
  handle_reaches_host : handle a p ≡ handle_host a p dst host
  unfolding handle
  handle_reaches_host = rw (redirected, peeked) (ap (handle_host a p dst) identified)

  -- For a connection whose destination and first bytes are known, the handler goes on to the upstream,
  -- by `https_mitm` or `http_forward`, exactly when the policy allows the identified host, or leaves
  -- it to the decider and the decider's answer allows it.
  pub handle_transfers_iff : Any IsTransfer (handle a p) ↔ IsPermitted (evaluate p host).0 a.decider
  handle_transfers_iff = rw handle_reaches_host (IsTransfer-of_handle_host a p dst host)

  -- Where the default is to deny and every rule continues for the identified host, the handler emits
  -- `request_opened` and `request_denied` with the reason `default_deny` and no rule, shuts the
  -- connection down, and does nothing else.
  pub handle_default_deny :
      p.default ≡ Action.deny
      → All (Continues (to_ascii_lowercase host)) p.rules
      → handle a p
        ≡ emits (new_event (a.clock 1) request_opened (request_of a dst host))
          ∷ emits (
              with_reason
                (new_event (a.clock 2) request_denied (request_of a dst host))
                (codes "default_deny"))
          ∷ shuts_down
          ∷ []
  handle_default_deny default continue =
      handle_reaches_host
      ∙ (handle_host_decided a p dst host (evaluate_default_deny p host default continue)
          ∙ unfold host_effects denial_reason in refl)

  -- Where the policy leaves the host to the decider and no decision comes, the handler asks with the
  -- connection's request and the policy's timeout, emits `request_denied` with the reason
  -- `decider_timeout` and the rule that matched, shuts the connection down, and does nothing else.
  pub handle_decider_silent :
      (rule : MatchedRule)
      → evaluate p host ≡ (Policy.Decision.decide, some rule)
      → a.decider ≡ none
      → handle a p
        ≡ emits (new_event (a.clock 1) request_opened (request_of a dst host))
          ∷ asks (query_of (request_of a dst host)) p.decide_timeout_ms
          ∷ emits (
              with_matched_rule
                (with_reason
                  (new_event (a.clock 2) request_denied (request_of a dst host))
                  (codes "decider_timeout"))
                rule)
          ∷ shuts_down
          ∷ []
  handle_decider_silent rule decided silent =
      handle_reaches_host
      ∙ (handle_host_decided a p dst host decided ∙ unfold host_effects denial_reason in rw silent)
