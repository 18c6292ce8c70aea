-- ===== src/Policy/FirstMatch/Rules.antt =====
-- Rules that fire, rules that continue, and the first match in a list of rules.
use condukt.Prelude.{
  ◌≡◌, inl, inr, true, false, List, [], ◌∷◌, ◌++◌, Str, codes, arith, All, Any, length, Bool-cases,
}
use condukt.Glob.{matches_one, matches_any}
use condukt.Policy.{Rule, Decision, MatchedRule, matched_deny_list}

-- some pattern of the list accepts the host
abbrev pub Accepts : Str → List Str → Type 0
Accepts host patterns = Any (λ p. matches_one host p ≡ true) patterns

-- The rule short-circuits with this decision under this name.
pub data Fires (host : Str) : Rule → Decision → Str → Type 0 where
  allows :
      {ps : List Str} → Accepts host ps → Fires host (Rule.allow ps) Decision.allow (codes "allow")
  denies :
      {ps : List Str}
      → Accepts host ps
      → Fires host (Rule.deny ps) (Decision.deny matched_deny_list) (codes "deny")
  decides : Fires host Rule.decide Decision.decide (codes "decide")

-- The rule lets the next one run.
abbrev pub Continues : Str → Rule → Type 0
Continues host (Rule.allow ps) = ¬ Accepts host ps
Continues host (Rule.deny ps) = ¬ Accepts host ps
Continues host Rule.decide = ⊥

pub record FirstMatch (host : Str) (rules : List Rule) (d : Decision) (m : MatchedRule)
    : Type 0 where
  pub before : List Rule
  pub rule : Rule
  pub after : List Rule
  pub split : rules ≡ before ++ rule ∷ after
  pub all_continue : All (Continues host) before
  pub at_index : m.index ≡ length before
  pub fires : Fires host rule d m.kind

pub matches_any_sound : (host : Str) (ps : List Str) → matches_any host ps ≡ true → Accepts host ps
unfolding matches_any
matches_any_sound host [] h = absurd (ground arith)
matches_any_sound host (p ∷ ps) h = elim (Bool-cases (matches_one host p)) [
  | inl e ↦ inl e
  | inr e ↦ inr (matches_any_sound host ps (rw e at h))
]

pub matches_any_complete :
    (host : Str) (ps : List Str) → Accepts host ps → matches_any host ps ≡ true
unfolding matches_any
matches_any_complete host [] h = absurd h
matches_any_complete host (p ∷ ps) (inl e) = rw e
matches_any_complete host (p ∷ ps) (inr a) = elim (Bool-cases (matches_one host p)) [
  | inl e ↦ rw e
  | inr e ↦ rw e (matches_any_complete host ps a)
]

pub not-Accepts : (host : Str) (ps : List Str) → matches_any host ps ≡ false → ¬ Accepts host ps
not-Accepts host ps h a = ground (arith, matches_any_complete host ps a)

pub Accepts-not : (host : Str) (ps : List Str) → ¬ Accepts host ps → matches_any host ps ≡ false
Accepts-not host ps h = elim (Bool-cases (matches_any host ps)) [
  | inl e ↦ absurd (h (matches_any_sound host ps e))
  | inr e ↦ e
]
