-- ===== src/Bashkit/Pattern/Language.antt =====
-- The texts that a pattern accepts.
use condukt.Prelude.{
  ℕ, ◌≡◌, ◌≢◌, ◌↔◌, refl, sym, ap, ◌∙◌, subst, Bool, true, false, [], ◌∷◌, ◌++◌, ◌==◌, ==_iff,
  arith, Bool-cases, inl, inr, ◌⊎◌,
}
use condukt.Prelude.Bytes.{Bytes}
use condukt.Bashkit.Pattern.{matches_from, helper, glob_match}

-- An asterisk stands for any bytes, a question mark for one byte, and any other byte for itself.
pub data Accepts : Bytes → Bytes → Type 0 where
  done : Accepts [] []
  any_bytes :
      {pattern text : Bytes} (skipped : Bytes)
      → Accepts pattern text
      → Accepts (b'*' ∷ pattern) (skipped ++ text)
  one_byte :
      {pattern text : Bytes} (t : ℕ) → Accepts pattern text → Accepts (b'?' ∷ pattern) (t ∷ text)
  same_byte :
      {pattern text : Bytes} (p : ℕ)
      → p ≢ b'*'
      → Accepts pattern text
      → Accepts (p ∷ pattern) (p ∷ text)

-- a place of the text at which the rest matches
record Place (rest : Bytes → Bool) (text : Bytes) : Type 0 where
  skipped : Bytes
  left : Bytes
  splits : text ≡ skipped ++ left
  matches : rest left ≡ true

matches_from-Place :
    (rest : Bytes → Bool) (text : Bytes) → matches_from rest text ≡ true → Place rest text
matches_from-Place rest [] h = record { skipped = []; left = []; splits = refl; matches = h }
matches_from-Place rest (t ∷ text) h = elim (Bool-cases (rest (t ∷ text))) [
  | inl e ↦ record { skipped = []; left = t ∷ text; splits = refl; matches = e }
  | inr e ↦
      let later = matches_from-Place rest text (ground arith) in
      record {
        skipped = t ∷ later.skipped;
        left = later.left;
        splits = ap (λ s. t ∷ s) later.splits;
        matches = later.matches;
      }
]

matches_from-here :
    (rest : Bytes → Bool) (text : Bytes) → rest text ≡ true → matches_from rest text ≡ true
matches_from-here rest [] h = h
matches_from-here rest (t ∷ text) h = rw h refl

matches_from-append :
    (rest : Bytes → Bool) (skipped text : Bytes)
    → rest text ≡ true
    → matches_from rest (skipped ++ text) ≡ true
matches_from-append rest [] text h = matches_from-here rest text h
matches_from-append rest (t ∷ skipped) text h =
    ground (arith, matches_from-append rest skipped text h)

helper-star :
    (pattern text : Bytes) → helper (b'*' ∷ pattern) text ≡ matches_from (helper pattern) text
unfolding helper
helper-star pattern [] = refl
helper-star pattern (t ∷ text) = refl

helper-Accepts : {pattern text : Bytes} → Accepts pattern text → helper pattern text ≡ true
unfolding helper
helper-Accepts done = refl
helper-Accepts (any_bytes {pattern} {text} skipped a) =
    helper-star pattern (skipped ++ text)
    ∙ matches_from-append (helper pattern) skipped text (helper-Accepts a)
helper-Accepts (one_byte t a) = helper-Accepts a
helper-Accepts (same_byte p n a) = ground (arith, helper-Accepts a, ==_iff p p)

-- one byte of the pattern at one byte of the text
helper-step :
    (p t : ℕ) (pattern text : Bytes)
    → p ≢ b'*'
    → helper (p ∷ pattern) (t ∷ text) ≡ true
    → (helper pattern text ≡ true) × ((p ≡ b'?') ⊎ (p ≡ t))
unfolding helper
helper-step p t pattern text n h = elim (Bool-cases (p == b'?')) [
  | inl e ↦ (ground (arith, ==_iff p b'*'), inl (ground (arith, ==_iff p b'?')))
  | inr e ↦ elim (Bool-cases (p == t)) [
    | inl f ↦ (ground (arith, ==_iff p b'*'), inr (ground (arith, ==_iff p t)))
    | inr f ↦ absurd (ground (arith, ==_iff p b'*'))
  ]
]

Accepts-byte :
    (p t : ℕ) {pattern text : Bytes}
    → p ≢ b'*'
    → (p ≡ b'?') ⊎ (p ≡ t)
    → Accepts pattern text
    → Accepts (p ∷ pattern) (t ∷ text)
Accepts-byte p t {pattern} {text} n (inl e) a =
    subst (λ q. Accepts (q ∷ pattern) (t ∷ text)) (sym e) (one_byte t a)
Accepts-byte p t {pattern} {text} n (inr e) a =
    subst (λ u. Accepts (p ∷ pattern) (u ∷ text)) e (same_byte p n a)

-- a byte other than an asterisk accepts no empty text
helper-empty : (p : ℕ) (pattern : Bytes) → (p == b'*') ≡ false → helper (p ∷ pattern) [] ≡ false
unfolding helper
helper-empty p pattern e = rw e refl

Accepts-of_helper : (pattern text : Bytes) → helper pattern text ≡ true → Accepts pattern text
Accepts-of_helper [] [] h = done
Accepts-of_helper [] (t ∷ text) h = unfold helper in absurd (ground arith)
Accepts-of_helper (p ∷ pattern) text h = elim (Bool-cases (p == b'*')) [
  | inl e ↦ starred ((==_iff p b'*').0 e) (λ s. Accepts-of_helper pattern s)
  | inr e ↦ other text e h (λ s. Accepts-of_helper pattern s)
]
  where
    starred :
        p ≡ b'*'
        → ((s : Bytes) → helper pattern s ≡ true → Accepts pattern s)
        → Accepts (p ∷ pattern) text
    starred e ih =
        let place =
          matches_from-Place (helper pattern) text
            (sym (helper-star pattern text) ∙ (ap (λ q. helper (q ∷ pattern) text) (sym e) ∙ h)) in
        subst (λ q. Accepts (q ∷ pattern) text) (sym e)
          (subst (Accepts (b'*' ∷ pattern)) (sym place.splits)
            (any_bytes place.skipped (ih place.left place.matches)))

    other :
        (text : Bytes)
        → (p == b'*') ≡ false
        → helper (p ∷ pattern) text ≡ true
        → ((s : Bytes) → helper pattern s ≡ true → Accepts pattern s)
        → Accepts (p ∷ pattern) text
    other [] e h ih = absurd (ground (arith, helper-empty p pattern e))
    other (t ∷ text) e h ih =
        let not_star : p ≢ b'*' = λ q. ground (arith, ==_iff p b'*') in
        let step = helper-step p t pattern text not_star h in
        Accepts-byte p t not_star step.1 (ih text step.0)

-- `glob_match` accepts exactly the texts of the pattern, where an asterisk stands for any bytes, a
-- question mark for one byte, and every other byte for itself.
pub glob_match_iff :
    (pattern text : Bytes) → (glob_match pattern text ≡ true) ↔ Accepts pattern text
unfolding glob_match
glob_match_iff pattern text = (Accepts-of_helper pattern text, helper-Accepts)
