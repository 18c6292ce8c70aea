-- ===== src/Bashkit/Reply/Errors.antt =====
-- The classification of an error's text by the phrases that it holds.
use condukt.Prelude.{
  ℕ, ◌≡◌, refl, ap, subst, ◌∙◌, ◌↔◌, inl, inr, Bool, true, false, ◌||◌, List, [], ◌∷◌, ◌++◌, Str,
  codes, if◌then◌else◌, arith, Any, any, Bool-cases, Option-cases, strip_prefix,
  strip_prefix-eq_some, strip_prefix-append, to_ascii_lowercase,
}
use condukt.Bashkit.Edit.{starts_with}
use condukt.Bashkit.Reply.{contains, Atom, error, enoent, eisdir, eexist, eacces, map_bashkit_error}

-- the phrase stands somewhere in the text
abbrev pub Holds : Str → Str → Type 0
Holds needle s = (a : Str) × (b : Str) × (s ≡ a ++ (needle ++ b))

starts_with-append : (needle b : Str) → starts_with needle (needle ++ b) ≡ true
starts_with-append needle b = ground (arith, strip_prefix-append needle b)

Holds-here : (needle s : Str) → starts_with needle s ≡ true → Holds needle s
Holds-here needle s h = elim (Option-cases (strip_prefix needle s)) [
  | inl e ↦ absurd (ground (arith, e))
  | inr (r, e) ↦ ([], r, strip_prefix-eq_some needle s r e)
]

Holds-later : (needle : Str) (c : ℕ) (s : Str) → Holds needle s → Holds needle (c ∷ s)
Holds-later needle c s (a, b, e) = (c ∷ a, b, ap (λ t. c ∷ t) e)

Holds-of_contains : (s needle : Str) → contains s needle ≡ true → Holds needle s
Holds-of_contains [] [] h = ([], [], refl)
Holds-of_contains [] (n ∷ needle) h = absurd (ground arith)
Holds-of_contains (c ∷ s) needle h = elim (Bool-cases (starts_with needle (c ∷ s))) [
  | inl e ↦ Holds-here needle (c ∷ s) e
  | inr e ↦ Holds-later needle c s (Holds-of_contains s needle (ground (arith, e, h)))
]

contains-append : (a needle b : Str) → contains (a ++ (needle ++ b)) needle ≡ true
contains-append [] [] [] = refl
contains-append [] [] (c ∷ b) = refl
contains-append [] (n ∷ needle) b = rw (starts_with-append (n ∷ needle) b) refl
contains-append (c ∷ a) needle b = ground (arith, contains-append a needle b)

pub contains_iff : (s needle : Str) → (contains s needle ≡ true) ↔ Holds needle s
contains_iff s needle = (
  Holds-of_contains s needle,
  λ (a, b, e). ap (λ t. contains t needle) e ∙ contains-append a needle b,
)

module _ {A : Type 0} where
  -- The first entry of a table that has a phrase which the text holds, or the default.
  pub data FirstEntry (s : Str) (default : A) : List (List Str × A) → A → Type 0 where
    found :
        {phrases : List Str} {a : A} {table : List (List Str × A)}
        → Any (λ p. Holds p s) phrases
        → FirstEntry s default ((phrases, a) ∷ table) a
    passed :
        {phrases : List Str} {a result : A} {table : List (List Str × A)}
        → (Any (λ p. Holds p s) phrases → ⊥)
        → FirstEntry s default table result
        → FirstEntry s default ((phrases, a) ∷ table) result
    exhausted : FirstEntry s default [] default

  abbrev pub classify : Str → A → List (List Str × A) → A
  classify s default [] = default
  classify s default ((phrases, a) ∷ table) =
      let onward = classify s default table in if any (contains s) phrases then a else onward

any-Holds :
    (s : Str) (phrases : List Str)
    → (any (contains s) phrases ≡ true) ↔ Any (λ p. Holds p s) phrases
any-Holds s [] = (λ h. absurd (ground arith), λ h. absurd h)
any-Holds s (p ∷ phrases) =
    let head = contains_iff s p in
    let tail = any-Holds s phrases in
    (
      λ h. elim (Bool-cases (contains s p)) [
        | inl e ↦ inl (head.0 e)
        | inr e ↦ inr (tail.0 (ground (arith, e, h)))
      ],
      λ h. elim h [ inl x ↦ ground (arith, head.1 x) | inr x ↦ ground (arith, tail.1 x) ],
    )

pub classify-FirstEntry :
    {A : Type 0} (s : Str) (default : A) (table : List (List Str × A))
    → FirstEntry s default table (classify s default table)
classify-FirstEntry s default [] = exhausted
classify-FirstEntry s default ((phrases, a) ∷ table) =
    elim (Bool-cases (any (contains s) phrases)) [
      | inl e ↦ rw e (found ((any-Holds s phrases).0 e))
      | inr e ↦ rw e (
          passed (λ h. absurd (ground (arith, e, (any-Holds s phrases).1 h)))
            (classify-FirstEntry s default table))
    ]

-- the phrases in the order in which they are looked for
abbrev pub bashkit_phrases : List (List Str × Atom)
bashkit_phrases =
    ((codes "not found" ∷ codes "no such" ∷ []), enoent)
    ∷ ((codes "is a directory" ∷ []), eisdir)
    ∷ ((codes "already exists" ∷ []), eexist)
    ∷ ((codes "permission" ∷ codes "denied" ∷ []), eacces)
    ∷ []

-- An error's atom is that of the first entry of the table with a phrase that stands somewhere in the
-- error's text, whatever the ASCII case of the text, and `error` where none does.
pub map_bashkit_error-FirstEntry :
    (s : Str) → FirstEntry (to_ascii_lowercase s) error bashkit_phrases (map_bashkit_error s)
map_bashkit_error-FirstEntry s =
    subst (FirstEntry (to_ascii_lowercase s) error bashkit_phrases) by_table
      (classify-FirstEntry (to_ascii_lowercase s) error bashkit_phrases)
  where
    by_tests :
        (a b c d e f : Bool)
        → (if a || (b || false)
            then enoent
            else if c || false
            then eisdir
            else if d || false
            then eexist
            else if e || (f || false)
            then eacces
            else error)
          ≡ (if a || b
              then enoent
              else if c
              then eisdir
              else if d
              then eexist
              else if e || f
              then eacces
              else error)
    by_tests a b c d e f = ground arith

    by_table : classify (to_ascii_lowercase s) error bashkit_phrases ≡ map_bashkit_error s
    by_table =
        unfold map_bashkit_error in
        by_tests (contains (to_ascii_lowercase s) (codes "not found"))
          (contains (to_ascii_lowercase s) (codes "no such"))
          (contains (to_ascii_lowercase s) (codes "is a directory"))
          (contains (to_ascii_lowercase s) (codes "already exists"))
          (contains (to_ascii_lowercase s) (codes "permission"))
          (contains (to_ascii_lowercase s) (codes "denied"))
