-- ===== src/Glob/Shapes.antt =====
-- The three documented shapes of a host pattern, as `matches_one` treats them.
use condukt.Prelude.{
  ℕ, ◌≡◌, ◌≢◌, refl, sym, ap, ◌∙◌, ◌↔◌, true, List, [], ◌∷◌, ◌++◌, Str, arith, All, append-nil,
  lower, to_ascii_lowercase,
}
use condukt.Glob.{Token, literal, star, double_star, asterisk, dot, matches_one}
use condukt.Glob.Matching.{Matches, done, text, label, labels, AtBoundary, IsLabel}
use condukt.Glob.Relation.{match_tokens_iff}
use condukt.Glob.Compile.Loop.{render, IsNormal}
use condukt.Glob.Compile.{compile_iff}

-- no asterisk
abbrev pub IsPlain : Str → Type 0
IsPlain s = All (λ c. c ≢ asterisk) s

lower-ne-asterisk : (c : ℕ) → c ≢ asterisk → lower c ≢ asterisk
lower-ne-asterisk c h = ground arith

IsPlain-to_ascii_lowercase : (s : Str) → IsPlain s → IsPlain (to_ascii_lowercase s)
IsPlain-to_ascii_lowercase [] h = tt
IsPlain-to_ascii_lowercase (c ∷ s) h = (lower-ne-asterisk c h.0, IsPlain-to_ascii_lowercase s h.1)

-- `matches_one` through the tokens of the pattern
matches_one_by_tokens :
    (host p : Str) (ts : List Token)
    → IsNormal ts
    → render ts ≡ to_ascii_lowercase p
    → (matches_one host p ≡ true) ↔ Matches AtBoundary ts host
unfolding matches_one
matches_one_by_tokens host p ts n r =
    rw ((compile_iff (to_ascii_lowercase p) ts).1 (n, r)) (match_tokens_iff ts host)

no_tokens : {host : Str} → Matches AtBoundary [] host → host ≡ []
no_tokens done = refl

one_literal : (host l : Str) → Matches AtBoundary (literal l ∷ []) host ↔ (host ≡ l)
one_literal host l = (forth, λ e. text l (e ∙ sym (append-nil l)) done)
  where
    forth : Matches AtBoundary (literal l ∷ []) host → host ≡ l
    forth (text _ e done) = e ∙ append-nil l

-- A pattern without an asterisk accepts one host alone: itself in lower case.
matches_one_plain :
    (host p : Str) → IsPlain p → (matches_one host p ≡ true) ↔ (host ≡ to_ascii_lowercase p)
matches_one_plain host [] h =
    let b = matches_one_by_tokens host [] [] tt refl in
    (λ e. no_tokens (b.0 e), λ e. b.1 (rw e done))
matches_one_plain host (c ∷ p) h =
    let b =
      matches_one_by_tokens host (c ∷ p) (literal (to_ascii_lowercase (c ∷ p)) ∷ [])
        ((λ e. cc), IsPlain-to_ascii_lowercase (c ∷ p) h, tt, tt) (append-nil _) in
    let l = one_literal host (to_ascii_lowercase (c ∷ p)) in (λ e. l.0 (b.0 e), λ e. b.1 (l.1 e))

star_suffix :
    (host l : Str)
    → Matches AtBoundary (star ∷ literal (dot ∷ l) ∷ []) host
      ↔ ((k : Str) × IsLabel k × (host ≡ k ++ dot ∷ l))
star_suffix host l = (forth, back)
  where
    forth :
        Matches AtBoundary (star ∷ literal (dot ∷ l) ∷ []) host
        → (k : Str) × IsLabel k × (host ≡ k ++ dot ∷ l)
    forth (label k i e b m) = (k, i, e ∙ ap (λ s. k ++ s) ((one_literal _ (dot ∷ l)).0 m))

    back :
        (k : Str) × IsLabel k × (host ≡ k ++ dot ∷ l)
        → Matches AtBoundary (star ∷ literal (dot ∷ l) ∷ []) host
    back (k, i, e) = label k i e refl ((one_literal (dot ∷ l) (dot ∷ l)).1 refl)

double_star_suffix :
    (host l : Str)
    → Matches AtBoundary (double_star ∷ literal (dot ∷ l) ∷ []) host
      ↔ ((k : Str) × (k ≢ []) × (host ≡ k ++ dot ∷ l))
double_star_suffix host l = (forth, back)
  where
    forth :
        Matches AtBoundary (double_star ∷ literal (dot ∷ l) ∷ []) host
        → (k : Str) × (k ≢ []) × (host ≡ k ++ dot ∷ l)
    forth (labels k n e m) = (k, n, e ∙ ap (λ s. k ++ s) ((one_literal _ (dot ∷ l)).0 m))

    back :
        (k : Str) × (k ≢ []) × (host ≡ k ++ dot ∷ l)
        → Matches AtBoundary (double_star ∷ literal (dot ∷ l) ∷ []) host
    back (k, n, e) = labels k n e ((one_literal (dot ∷ l) (dot ∷ l)).1 refl)

module _ (host suffix : Str) (h : IsPlain suffix) where
  abbrev low : Str
  low = to_ascii_lowercase suffix

  -- `*.suffix` accepts exactly the hosts that are one nonempty label without a dot, a dot and the
  -- suffix in lower case.
  matches_one_star_suffix :
      (matches_one host (asterisk ∷ dot ∷ suffix) ≡ true)
      ↔ ((k : Str) × IsLabel k × (host ≡ k ++ dot ∷ to_ascii_lowercase suffix))
  matches_one_star_suffix =
      let b =
        matches_one_by_tokens host (asterisk ∷ dot ∷ suffix) (star ∷ literal (dot ∷ low) ∷ [])
          (tt, ((λ e. cc), ((λ e. omega arith), IsPlain-to_ascii_lowercase suffix h), tt, tt))
          (ap (λ s. asterisk ∷ dot ∷ s) (append-nil low)) in
      let l = star_suffix host low in (λ e. l.0 (b.0 e), λ e. b.1 (l.1 e))

  -- `**.suffix` accepts exactly the hosts that are a nonempty text, a dot and the suffix in lower
  -- case.
  matches_one_double_star_suffix :
      (matches_one host (asterisk ∷ asterisk ∷ dot ∷ suffix) ≡ true)
      ↔ ((k : Str) × (k ≢ []) × (host ≡ k ++ dot ∷ to_ascii_lowercase suffix))
  matches_one_double_star_suffix =
      let b =
        matches_one_by_tokens host (asterisk ∷ asterisk ∷ dot ∷ suffix)
          (double_star ∷ literal (dot ∷ low) ∷ [])
          ((λ e. cc), ((λ e. omega arith), IsPlain-to_ascii_lowercase suffix h), tt, tt)
          (ap (λ s. asterisk ∷ asterisk ∷ dot ∷ s) (append-nil low)) in
      let l = double_star_suffix host low in (λ e. l.0 (b.0 e), λ e. b.1 (l.1 e))

  -- For a text without an asterisk: as a pattern it accepts itself in lower case and nothing else;
  -- behind `*.` it accepts exactly the hosts that are one nonempty label without a dot, a dot and the
  -- text in lower case; and behind `**.` exactly those that are a nonempty text, a dot and the text
  -- in lower case.
  pub matches_one_shapes :
      ((matches_one host suffix ≡ true) ↔ (host ≡ to_ascii_lowercase suffix))
      × ((matches_one host (asterisk ∷ dot ∷ suffix) ≡ true)
          ↔ ((k : Str) × IsLabel k × (host ≡ k ++ dot ∷ to_ascii_lowercase suffix)))
      × ((matches_one host (asterisk ∷ asterisk ∷ dot ∷ suffix) ≡ true)
          ↔ ((k : Str) × (k ≢ []) × (host ≡ k ++ dot ∷ to_ascii_lowercase suffix)))
  matches_one_shapes =
      (matches_one_plain host suffix h, matches_one_star_suffix, matches_one_double_star_suffix)
