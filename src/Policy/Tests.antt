-- ===== src/Policy/Tests.antt =====
-- The pipeline on the policies of the source's own tests, and the theorems at one of them.
use condukt.Prelude.{◌≡◌, refl, ◌↔◌, [], ◌∷◌, some, none, codes, All, to_ascii_lowercase}
use condukt.Glob.{matches_any}
use condukt.Policy.{
  Rule, Policy, Decision, matched_deny_list, default_deny, matched, evaluate, default_decision,
  default_action, default_max_body_capture, default_decide_timeout_ms,
}
use condukt.Policy.FirstMatch.Rules.{FirstMatch, Continues}
use condukt.Policy.FirstMatch.{evaluate-FirstMatch}
use condukt.Policy.Case.{fold_case, evaluate_ignores_case}

abbrev sample : Policy
sample = record {
  rules =
      Rule.deny (codes "Evil.com" ∷ [])
      ∷ Rule.allow (codes "api.github.com" ∷ codes "*.openai.com" ∷ [])
      ∷ Rule.decide
      ∷ [];
  default = default_action;
  redact = [];
  max_body_capture = default_max_body_capture;
  decide_timeout_ms = default_decide_timeout_ms;
}

denied_first :
    evaluate sample (codes "EVIL.com")
    ≡ (Decision.deny matched_deny_list, some (matched 0 (codes "deny")))
unfolding evaluate matches_any
denied_first = refl

allowed_second :
    evaluate sample (codes "api.openai.com") ≡ (Decision.allow, some (matched 1 (codes "allow")))
unfolding evaluate matches_any
allowed_second = refl

decided_last :
    evaluate sample (codes "anything.org") ≡ (Decision.decide, some (matched 2 (codes "decide")))
unfolding evaluate matches_any
decided_last = refl

no_rules :
    evaluate (record sample { rules = [] }) (codes "anything.org")
    ≡ (Decision.deny default_deny, none)
unfolding evaluate matches_any
no_rules = refl

evaluate-FirstMatch_example :
    ((evaluate sample (codes "api.openai.com") ≡ (Decision.allow, some (matched 1 (codes "allow"))))
      ↔ FirstMatch
          (to_ascii_lowercase (codes "api.openai.com"))
          sample.rules
          Decision.allow
          (matched 1 (codes "allow")))
    × ((evaluate sample (codes "api.openai.com") ≡ (Decision.allow, none)) ↔ (
        All (Continues (to_ascii_lowercase (codes "api.openai.com"))) sample.rules
        × (Decision.allow ≡ default_decision default_action)))
evaluate-FirstMatch_example =
    evaluate-FirstMatch sample (codes "api.openai.com") Decision.allow (matched 1 (codes "allow"))

evaluate_ignores_case_example :
    evaluate (fold_case sample) (codes "evil.com") ≡ evaluate sample (codes "EVIL.com")
evaluate_ignores_case_example = evaluate_ignores_case sample (codes "EVIL.com")
