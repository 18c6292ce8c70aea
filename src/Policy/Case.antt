-- ===== src/Policy/Case.antt =====
-- The ASCII case of hosts and patterns does not matter.
use condukt.Prelude.{
  ℕ, ◌+◌, ◌≡◌, refl, ap, ◌∙◌, List, [], ◌∷◌, map, Str, to_ascii_lowercase, to_ascii_lowercase_idem,
}
use condukt.Glob.{compile, match_tokens, matches_one, matches_any}
use condukt.Policy.{Rule, Policy, verdict, evaluate_rules, evaluate}

abbrev pub fold_rule : Rule → Rule
fold_rule (Rule.allow hosts) = Rule.allow (map to_ascii_lowercase hosts)
fold_rule (Rule.deny hosts) = Rule.deny (map to_ascii_lowercase hosts)
fold_rule Rule.decide = Rule.decide

-- the policy with its patterns in lower case
abbrev pub fold_case : Policy → Policy
fold_case p = record p { rules = map fold_rule p.rules }

matches_one-fold : (host p : Str) → matches_one host (to_ascii_lowercase p) ≡ matches_one host p
unfolding matches_one
matches_one-fold host p = ap (λ q. match_tokens (compile q) host) (to_ascii_lowercase_idem p)

matches_any-fold :
    (host : Str) (ps : List Str)
    → matches_any host (map to_ascii_lowercase ps) ≡ matches_any host ps
unfolding matches_any
matches_any-fold host [] = refl
matches_any-fold host (p ∷ ps) = rw (matches_one-fold host p, matches_any-fold host ps)

evaluate_rules-fold :
    (host : Str) (index : ℕ) (rules : List Rule)
    → evaluate_rules host index (map fold_rule rules) ≡ evaluate_rules host index rules
unfolding evaluate_rules
evaluate_rules-fold host index [] = refl
evaluate_rules-fold host index (Rule.allow ps ∷ rules) =
    rw (matches_any-fold host ps, evaluate_rules-fold host (index + 1) rules)
evaluate_rules-fold host index (Rule.deny ps ∷ rules) =
    rw (matches_any-fold host ps, evaluate_rules-fold host (index + 1) rules)
evaluate_rules-fold host index (Rule.decide ∷ rules) = refl

-- Writing the host and every pattern of a policy in lower case changes neither the decision nor
-- the matched rule.
pub evaluate_ignores_case :
    (p : Policy) (host : Str) → evaluate (fold_case p) (to_ascii_lowercase host) ≡ evaluate p host
unfolding evaluate
evaluate_ignores_case p host = ap (verdict p.default) (
    ap (λ low. evaluate_rules low 0 (map fold_rule p.rules)) (to_ascii_lowercase_idem host)
    ∙ evaluate_rules-fold (to_ascii_lowercase host) 0 p.rules)
