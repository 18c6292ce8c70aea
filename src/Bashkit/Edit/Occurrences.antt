-- ===== src/Bashkit/Edit/Occurrences.antt =====
-- The one occurrence that an edit replaces.
use condukt.Prelude.{
  ℕ, zero, suc, ◌≤◌, ◌≡◌, ◌≢◌, refl, sym, ap, ◌∙◌, [], ◌∷◌, ◌++◌, none, some, Str, length,
  strip_prefix, strip_prefix-eq_some, strip_prefix-append, arith, Option-cases, inl, inr,
}
use condukt.Bashkit.Edit.{matches, count_occurrences, replace_first}

-- the text holds the needle at no place
abbrev pub HoldsNo : Str → Str → Type 0
HoldsNo needle s = (a b : Str) → s ≢ a ++ (needle ++ b)

-- A text split around its first occurrence of a needle.
pub record SplitAtFirst (needle s : Str) : Type 0 where
  pub before : Str
  pub after : Str
  pub splits : s ≡ before ++ (needle ++ after)
  pub first : (a b : Str) → s ≡ a ++ (needle ++ b) → length before ≤ length a

matches_skip :
    (needle skipped s : Str) → matches (length skipped) needle (skipped ++ s) ≡ matches 0 needle s
unfolding matches
matches_skip needle [] s = refl
matches_skip needle (c ∷ skipped) s = matches_skip needle skipped s

-- A match at the front is counted, and the count goes on behind it.
matches_found :
    (n : ℕ) (needle s : Str)
    → matches 0 (n ∷ needle) ((n ∷ needle) ++ s) ≡ suc (matches 0 (n ∷ needle) s)
unfolding matches
matches_found n needle s =
    ground (arith, strip_prefix-append (n ∷ needle) s, matches_skip (n ∷ needle) needle s)

matches_missed :
    (needle : Str) (c : ℕ) (s : Str)
    → strip_prefix needle (c ∷ s) ≡ none
    → matches 0 needle (c ∷ s) ≡ matches 0 needle s
unfolding matches
matches_missed needle c s e = ground (arith, e)

matches_held : (n : ℕ) (needle a b : Str) → matches 0 (n ∷ needle) (a ++ ((n ∷ needle) ++ b)) ≢ 0
matches_held n needle [] b h = ground (arith, matches_found n needle b)
matches_held n needle (c ∷ a) b h =
    elim (Option-cases (strip_prefix (n ∷ needle) (c ∷ (a ++ ((n ∷ needle) ++ b))))) [
      | inl e ↦ matches_held n needle a b (sym (matches_missed (n ∷ needle) c _ e) ∙ h)
      | inr (r, e) ↦ ground (
        arith,
        ap (matches 0 (n ∷ needle))
              (strip_prefix-eq_some (n ∷ needle) (c ∷ (a ++ ((n ∷ needle) ++ b))) r e)
            ∙ matches_found n needle r,
        h,
      )
    ]

-- No match is counted where the text holds none.
matches-HoldsNo : (n : ℕ) (needle s : Str) → matches 0 (n ∷ needle) s ≡ 0 → HoldsNo (n ∷ needle) s
matches-HoldsNo n needle s h a b e =
    matches_held n needle a b (ap (matches 0 (n ∷ needle)) (sym e) ∙ h)

-- The first match: where it is, how many follow it, and what replaces it.
record First (needle new s : Str) (more : ℕ) : Type 0 where
  split : SplitAtFirst needle s
  counted : matches 0 needle split.after ≡ more
  replaced : replace_first s needle new ≡ split.before ++ (new ++ split.after)

First-here :
    (n : ℕ) (needle new : Str) (c : ℕ) (s rest : Str) (more : ℕ)
    → strip_prefix (n ∷ needle) (c ∷ s) ≡ some rest
    → matches 0 (n ∷ needle) (c ∷ s) ≡ suc more
    → First (n ∷ needle) new (c ∷ s) more
unfolding replace_first
First-here n needle new c s rest more e h =
    let split = strip_prefix-eq_some (n ∷ needle) (c ∷ s) rest e in
    record {
      split = record { before = []; after = rest; splits = split; first = λ a b q. omega arith };
      counted =
          ground (arith, sym (ap (matches 0 (n ∷ needle)) split ∙ matches_found n needle rest) ∙ h);
      replaced = ground (arith, e);
    }

First-later :
    (needle new : Str) (c : ℕ) (s : Str) (more : ℕ)
    → strip_prefix needle (c ∷ s) ≡ none
    → First needle new s more
    → First needle new (c ∷ s) more
unfolding replace_first
First-later needle new c s more e f = record {
  split = record {
    before = c ∷ f.split.before;
    after = f.split.after;
    splits = ap (λ t. c ∷ t) f.split.splits;
    first = not_earlier;
  };
  counted = f.counted;
  replaced = ground (arith, e, f.replaced);
}
  where
    not_earlier : (a b : Str) → c ∷ s ≡ a ++ (needle ++ b) → suc (length f.split.before) ≤ length a
    not_earlier [] b q =
        absurd (ground (arith, sym e ∙ (ap (strip_prefix needle) q ∙ strip_prefix-append needle b)))
    not_earlier (x ∷ a) b q = omega (arith, f.split.first a b (ground (arith, q)))

matches-First :
    (n : ℕ) (needle new s : Str) (more : ℕ)
    → matches 0 (n ∷ needle) s ≡ suc more
    → First (n ∷ needle) new s more
matches-First n needle new [] more h = unfold matches in absurd (ground arith)
matches-First n needle new (c ∷ s) more h =
    elim (Option-cases (strip_prefix (n ∷ needle) (c ∷ s))) [
      | inl e ↦
          First-later (n ∷ needle) new c s more e
            (matches-First n needle new s more (sym (matches_missed (n ∷ needle) c s e) ∙ h))
      | inr (r, e) ↦ First-here n needle new c s r more e h
    ]

-- What one occurrence means for a content, and what replacing it gives.
pub record IsEdit (old new content edited : Str) : Type 0 where
  pub split : SplitAtFirst old content
  pub single : HoldsNo old split.after
  pub result : edited ≡ split.before ++ (new ++ split.after)

pub replace_first-IsEdit :
    (content old new : Str)
    → count_occurrences content old ≡ 1
    → IsEdit old new content (replace_first content old new)
unfolding count_occurrences
replace_first-IsEdit content [] new h = absurd (ground arith)
replace_first-IsEdit content (n ∷ old) new h =
    let found = matches-First n old new content 0 h in
    record {
      split = found.split;
      single = matches-HoldsNo n old found.split.after found.counted;
      result = found.replaced;
    }

-- How many occurrences of a nonempty needle are found from the left, the next one always behind the
-- last.
pub data Holds (needle : Str) : Str → ℕ → Type 0 where
  no_more : {s : Str} → HoldsNo needle s → Holds needle s 0
  one_more :
      {s : Str} {n : ℕ} (split : SplitAtFirst needle s)
      → Holds needle split.after n
      → Holds needle s (suc n)

-- An empty needle is never counted.
pub data IsCount (needle s : Str) (n : ℕ) : Type 0 where
  of_nothing : needle ≡ [] → n ≡ 0 → IsCount needle s n
  of_text : needle ≢ [] → Holds needle s n → IsCount needle s n

matches-Holds :
    (n : ℕ) (needle : Str) (count : ℕ) (s : Str)
    → matches 0 (n ∷ needle) s ≡ count
    → Holds (n ∷ needle) s count
matches-Holds n needle zero s h = no_more (matches-HoldsNo n needle s h)
matches-Holds n needle (suc count) s h =
    let found = matches-First n needle [] s count h in
    one_more found.split (matches-Holds n needle count found.split.after found.counted)

pub count_occurrences-IsCount :
    (content old : Str) → IsCount old content (count_occurrences content old)
unfolding count_occurrences
count_occurrences-IsCount content [] = of_nothing refl refl
count_occurrences-IsCount content (n ∷ old) =
    of_text (λ e. ground (arith, e))
      (matches-Holds n old (matches 0 (n ∷ old) content) content refl)
