-- ===== src/Policy/FirstMatch/Loop.antt =====
-- The loop of `evaluate` finds the first match.
use condukt.Prelude.{
  ℕ, ◌+◌, ◌≡◌, refl, sym, ap, subst, ◌∙◌, inl, inr, List, [], ◌∷◌, ◌++◌, Option, none, some, Str,
  arith, append-nil, All, length, Bool-cases,
}
use mathlib.Core.Option.{some-injective}
use condukt.Glob.{matches_any}
use condukt.Policy.{Rule, Decision, MatchedRule, matched, evaluate_rules}
use condukt.Policy.FirstMatch.Rules.{
  Fires, allows, denies, decides, Continues, matches_any_sound, matches_any_complete, not-Accepts,
  Accepts-not, FirstMatch, allows, denies, decides,
}

module _ (host : Str) where
  FirstMatch-here :
      {d : Decision} {k : Str} (r : Rule) (rules : List Rule)
      → Fires host r d k
      → FirstMatch host (r ∷ rules) d (matched 0 k)
  FirstMatch-here r rules f = record {
    before = [];
    rule = r;
    after = rules;
    split = refl;
    all_continue = tt;
    at_index = refl;
    fires = f;
  }

  FirstMatch-later :
      {rules : List Rule} {d : Decision} (j : ℕ) (k : Str) (r : Rule)
      → Continues host r
      → FirstMatch host rules d (matched j k)
      → FirstMatch host (r ∷ rules) d (matched (j + 1) k)
  FirstMatch-later j k r c f = record {
    before = r ∷ f.before;
    rule = f.rule;
    after = f.after;
    split = ap (λ rs. r ∷ rs) f.split;
    all_continue = (c, f.all_continue);
    at_index = omega (arith, f.at_index);
    fires = f.fires;
  }

  -- a result of the loop from `index` on, as a first match
  abbrev Found : List Rule → ℕ → Decision → MatchedRule → Type 0
  Found rules index d m =
      (j : ℕ) × (m.index ≡ index + j) × FirstMatch host rules d (matched j m.kind)

  Found-later :
      {rules : List Rule} (index : ℕ) {d : Decision} {m : MatchedRule} (r : Rule)
      → Continues host r
      → Found rules (index + 1) d m
      → Found (r ∷ rules) index d m
  Found-later index {m} r c (j, e, f) = (j + 1, omega (arith, e), FirstMatch-later j m.kind r c f)

  Found-here :
      (index : ℕ) {d d' : Decision} {m : MatchedRule} {k : Str} (r : Rule) (rules : List Rule)
      → Fires host r d' k
      → ◌≡◌ {A = Option (Decision × MatchedRule)} (some (d', matched index k)) (some (d, m))
      → Found (r ∷ rules) index d m
  Found-here index r rules f e =
      subst (λ x. Found (r ∷ rules) index x.0 x.1) (some-injective _ _ e)
        (0, omega arith, FirstMatch-here r rules f)

  pub evaluate_rules_sound :
      (rules : List Rule) (index : ℕ) (d : Decision) (m : MatchedRule)
      → evaluate_rules host index rules ≡ some (d, m)
      → Found rules index d m
  unfolding evaluate_rules
  evaluate_rules_sound [] index d m h = absurd (ground arith)
  evaluate_rules_sound (Rule.allow ps ∷ rules) index d m h =
      elim (Bool-cases (matches_any host ps)) [
        | inl e ↦
            Found-here index (Rule.allow ps) rules (allows (matches_any_sound host ps e))
              (rw e at h)
        | inr e ↦
            Found-later index (Rule.allow ps) (not-Accepts host ps e)
              (evaluate_rules_sound rules (index + 1) d m (rw e at h))
      ]
  evaluate_rules_sound (Rule.deny ps ∷ rules) index d m h =
      elim (Bool-cases (matches_any host ps)) [
        | inl e ↦
            Found-here index (Rule.deny ps) rules (denies (matches_any_sound host ps e)) (rw e at h)
        | inr e ↦
            Found-later index (Rule.deny ps) (not-Accepts host ps e)
              (evaluate_rules_sound rules (index + 1) d m (rw e at h))
      ]
  evaluate_rules_sound (Rule.decide ∷ rules) index d m h =
      Found-here index Rule.decide rules decides h

  evaluate_rules-Fires :
      {r : Rule} {d : Decision} {k : Str} (rules : List Rule) (index : ℕ)
      → Fires host r d k
      → evaluate_rules host index (r ∷ rules) ≡ some (d, matched index k)
  unfolding evaluate_rules
  evaluate_rules-Fires rules index (allows {ps} a) = rw (matches_any_complete host ps a)
  evaluate_rules-Fires rules index (denies {ps} a) = rw (matches_any_complete host ps a)
  evaluate_rules-Fires rules index decides = refl

  evaluate_rules-Continues :
      (r : Rule) (rules : List Rule) (index : ℕ)
      → Continues host r
      → evaluate_rules host index (r ∷ rules) ≡ evaluate_rules host (index + 1) rules
  unfolding evaluate_rules
  evaluate_rules-Continues (Rule.allow ps) rules index c = rw (Accepts-not host ps c)
  evaluate_rules-Continues (Rule.deny ps) rules index c = rw (Accepts-not host ps c)
  evaluate_rules-Continues Rule.decide rules index c = absurd c

  evaluate_rules-All_continue :
      (before rules : List Rule) (index : ℕ)
      → All (Continues host) before
      → evaluate_rules host index (before ++ rules)
        ≡ evaluate_rules host (index + length before) rules
  evaluate_rules-All_continue [] rules index a = ap (λ i. evaluate_rules host i rules) (omega arith)
  evaluate_rules-All_continue (r ∷ before) rules index a =
      evaluate_rules-Continues r (before ++ rules) index a.0
      ∙ (evaluate_rules-All_continue before rules (index + 1) a.1
          ∙ ap (λ i. evaluate_rules host i rules) (omega arith))

  pub evaluate_rules-none :
      (rules : List Rule) (index : ℕ)
      → evaluate_rules host index rules ≡ none
      → All (Continues host) rules
  unfolding evaluate_rules
  evaluate_rules-none [] index h = tt
  evaluate_rules-none (Rule.allow ps ∷ rules) index h = elim (Bool-cases (matches_any host ps)) [
    | inl e ↦ absurd (ground arith)
    | inr e ↦ (not-Accepts host ps e, evaluate_rules-none rules (index + 1) (rw e at h))
  ]
  evaluate_rules-none (Rule.deny ps ∷ rules) index h = elim (Bool-cases (matches_any host ps)) [
    | inl e ↦ absurd (ground arith)
    | inr e ↦ (not-Accepts host ps e, evaluate_rules-none rules (index + 1) (rw e at h))
  ]
  evaluate_rules-none (Rule.decide ∷ rules) index h = absurd (ground arith)

module _ {host : Str} where
  pub FirstMatch-Found :
      {rules : List Rule} {d : Decision} {m : MatchedRule}
      → Found host rules 0 d m
      → FirstMatch host rules d m
  FirstMatch-Found (j, e, f) = record {
    before = f.before;
    rule = f.rule;
    after = f.after;
    split = f.split;
    all_continue = f.all_continue;
    at_index = omega (arith, e, f.at_index);
    fires = f.fires;
  }

  pub FirstMatch-evaluate_rules :
      {rules : List Rule} {d : Decision} {m : MatchedRule}
      → FirstMatch host rules d m
      → evaluate_rules host 0 rules ≡ some (d, m)
  FirstMatch-evaluate_rules {d} {m} f =
      ap (evaluate_rules host 0) f.split
      ∙ (evaluate_rules-All_continue host f.before (f.rule ∷ f.after) 0 f.all_continue
          ∙ (evaluate_rules-Fires host f.after (0 + length f.before) f.fires
              ∙ ap (λ i. some (d, matched i m.kind)) (omega (arith, f.at_index))))

pub All-continue-evaluate_rules :
    (host : Str) (rules : List Rule)
    → All (Continues host) rules
    → evaluate_rules host 0 rules ≡ none
All-continue-evaluate_rules host rules h =
    ap (evaluate_rules host 0) (sym (append-nil rules))
    ∙ (evaluate_rules-All_continue host rules [] 0 h ∙ no_rules (0 + length rules))
  where
    no_rules : (i : ℕ) → evaluate_rules host i [] ≡ none
    no_rules i = unfold evaluate_rules in refl
