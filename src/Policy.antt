-- ===== src/Policy.antt =====
-- native/condukt_egress/src/proxy/policy.rs: the policy and its evaluation.
pub mod FirstMatch
pub mod Case
mod Tests
use condukt.Prelude.{
  ℕ, zero, suc, ◌+◌, Bool, true, false, List, [], ◌∷◌, Option, none, some, Str, codes,
  if◌then◌else◌, to_ascii_lowercase,
}
use condukt.Glob.{matches_any}

pub data Action : Type 0 where
  allow : Action
  deny : Action

pub data Rule : Type 0 where
  allow : List Str → Rule
  deny : List Str → Rule
  decide : Rule

pub record Policy : Type 0 where
  pub rules : List Rule
  pub default : Action
  pub redact : List Str
  pub max_body_capture : ℕ
  pub decide_timeout_ms : ℕ

-- the values of the fields that a policy file leaves out
abbrev pub default_action : Action
default_action = Action.deny

abbrev pub default_max_body_capture : ℕ
default_max_body_capture = 4096

abbrev pub default_decide_timeout_ms : ℕ
default_decide_timeout_ms = 5000

pub data DenyReason : Type 0 where
  matched_deny_list : DenyReason
  default_deny : DenyReason

pub data Decision : Type 0 where
  allow : Decision
  deny : DenyReason → Decision
  decide : Decision

pub record MatchedRule : Type 0 where
  pub index : ℕ
  pub kind : Str

unfoldable pub as_str : DenyReason → Str
as_str matched_deny_list = codes "matched_deny_list"
as_str default_deny = codes "default_deny"

abbrev pub matched : ℕ → Str → MatchedRule
matched index kind = record { index = index; kind = kind }

-- the `match self.default` behind the loop
unfoldable pub default_decision : Action → Decision
default_decision Action.allow = Decision.allow
default_decision Action.deny = Decision.deny default_deny

-- The `for` loop over `rules.iter().enumerate()`. `none` means that every rule continued.
unfoldable pub evaluate_rules : Str → ℕ → List Rule → Option (Decision × MatchedRule)
evaluate_rules host_lc index [] = none
evaluate_rules host_lc index (Rule.allow hosts ∷ rules) =
    let onward = evaluate_rules host_lc (index + 1) rules in
    if matches_any host_lc hosts
    then some (Decision.allow, matched index (codes "allow"))
    else onward
evaluate_rules host_lc index (Rule.deny hosts ∷ rules) =
    let onward = evaluate_rules host_lc (index + 1) rules in
    if matches_any host_lc hosts
    then some (Decision.deny matched_deny_list, matched index (codes "deny"))
    else onward
evaluate_rules host_lc index (Rule.decide ∷ rules) =
    some (Decision.decide, matched index (codes "decide"))

-- what `evaluate` returns after the loop
abbrev pub verdict : Action → Option (Decision × MatchedRule) → Decision × Option MatchedRule
verdict default (some (decision, rule)) = (decision, some rule)
verdict default none = (default_decision default, none)

unfoldable pub evaluate : Policy → Str → Decision × Option MatchedRule
unfolding evaluate_rules default_decision
evaluate p host = verdict p.default (evaluate_rules (to_ascii_lowercase host) 0 p.rules)
