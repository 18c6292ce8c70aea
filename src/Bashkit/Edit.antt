-- ===== src/Bashkit/Edit.antt =====
-- `count_occurrences` and `replacen(…, 1)`, over the characters of the content.
pub mod Occurrences
use condukt.Prelude.{
  ℕ, zero, suc, ◌-◌, Bool, true, false, List, [], ◌∷◌, ◌++◌, Option, none, some, Str, if◌then◌else◌,
  is_empty, length, strip_prefix,
}

-- what stands behind the needle at the start of a text decides
abbrev pub starts_with : Str → Str → Bool
starts_with needle s = elim (strip_prefix needle s) [ none ↦ false | some rest ↦ true ]

-- The matches that `str::matches` finds from left to right without overlap. The first argument is
-- how many characters of the last match are still to pass.
unfoldable pub matches : ℕ → Str → Str → ℕ
matches skip needle [] = 0
matches (suc skip) needle (c ∷ s) = matches skip needle s
matches zero needle (c ∷ s) =
    let found = suc (matches (length needle - 1) needle s) in
    let onward = matches 0 needle s in if starts_with needle (c ∷ s) then found else onward

unfoldable pub count_occurrences : Str → Str → ℕ
unfolding matches
count_occurrences haystack needle = if is_empty needle then 0 else matches 0 needle haystack

-- `haystack.replacen(old, new, 1)`, for a nonempty `old`
unfoldable pub replace_first : Str → Str → Str → Str
replace_first [] old new = []
replace_first (c ∷ s) old new =
    let onward = c ∷ replace_first s old new in
    elim (strip_prefix old (c ∷ s)) [ some rest ↦ new ++ rest | none ↦ onward ]
