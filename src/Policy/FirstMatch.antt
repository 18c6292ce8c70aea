-- ===== src/Policy/FirstMatch.antt =====
-- `evaluate` against its documentation: the first rule that does not continue decides.
pub mod Rules
pub mod Loop
use condukt.Prelude.{
  ℕ, ◌+◌, ◌≡◌, refl, sym, ap, subst, ◌∙◌, ◌↔◌, inl, inr, true, false, List, [], ◌∷◌, ◌++◌, Option,
  none, some, Str, codes, arith, append-nil, All, Any, length, Bool-cases, to_ascii_lowercase,
}
use mathlib.Core.Option.{some-injective}
use condukt.Glob.{matches_one, matches_any}
use condukt.Policy.{
  Action, Rule, Policy, Decision, MatchedRule, matched, default_decision, matched_deny_list,
  verdict, evaluate_rules, evaluate,
}
use condukt.Policy.FirstMatch.Rules.{
  Fires, allows, denies, decides, Continues, matches_any_sound, matches_any_complete, not-Accepts,
  Accepts-not, FirstMatch, Accepts, allows, denies, decides,
}
use condukt.Policy.FirstMatch.Loop.{
  evaluate_rules_sound, evaluate_rules-none, FirstMatch-Found, FirstMatch-evaluate_rules,
  All-continue-evaluate_rules,
}

verdict-some :
    (a : Action) (o : Option (Decision × MatchedRule)) {d : Decision} {m : MatchedRule}
    → verdict a o ≡ (d, some m)
    → o ≡ some (d, m)
verdict-some a none h = absurd (ground arith)
verdict-some a (some (d, m)) h = ground arith

verdict-none :
    (a : Action) (o : Option (Decision × MatchedRule)) {d : Decision}
    → verdict a o ≡ (d, none)
    → (o ≡ none) × (d ≡ default_decision a)
verdict-none a none h = ground arith
verdict-none a (some (d, m)) h = absurd (ground arith)

verdict_default : (a : Action) {d : Decision} → d ≡ default_decision a → verdict a none ≡ (d, none)
verdict_default a e = ground arith

-- `evaluate` answers with a decision and a matched rule exactly when that rule is the first that
-- does not continue, at the index and with the kind and the decision given; it answers without a
-- matched rule exactly when every rule continues, and then with the default.
pub evaluate-FirstMatch :
    (p : Policy) (host : Str) (d : Decision) (m : MatchedRule)
    → ((evaluate p host ≡ (d, some m)) ↔ FirstMatch (to_ascii_lowercase host) p.rules d m)
      × ((evaluate p host ≡ (d, none))
          ↔ (All (Continues (to_ascii_lowercase host)) p.rules × (d ≡ default_decision p.default)))
unfolding evaluate
evaluate-FirstMatch p host d m =
    let low = to_ascii_lowercase host in
    let found = evaluate_rules low 0 p.rules in
    (
      (
        λ e.
            FirstMatch-Found
              (evaluate_rules_sound low p.rules 0 d m (verdict-some p.default found e)),
        λ f. ap (verdict p.default) (FirstMatch-evaluate_rules f),
      ),
      (
        λ e.
            let (missed, default) = verdict-none p.default found e in
            (evaluate_rules-none low p.rules 0 missed, default),
        λ h.
            ap (verdict p.default) (All-continue-evaluate_rules low p.rules h.0)
            ∙ verdict_default p.default h.1,
      ),
    )
