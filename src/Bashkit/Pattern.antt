-- ===== src/Bashkit/Pattern.antt =====
-- `glob_match`, over the bytes of pattern and text.
pub mod Language
use condukt.Prelude.{
  ℕ, zero, suc, Bool, true, false, ◌||◌, List, [], ◌∷◌, ◌++◌, ◌==◌, if◌then◌else◌,
}
use condukt.Prelude.Bytes.{Bytes}

-- the matches of the rest of the pattern at each later place of the text
abbrev pub matches_from : (Bytes → Bool) → Bytes → Bool
matches_from rest [] = rest []
matches_from rest (t ∷ text) = if rest (t ∷ text) then true else matches_from rest text

-- `helper`: its recursion on the text for an asterisk is `matches_from`
unfoldable pub helper : Bytes → Bytes → Bool
helper [] [] = true
helper [] (t ∷ text) = false
helper (p ∷ pattern) [] = if p == b'*' then helper pattern [] else false
helper (p ∷ pattern) (t ∷ text) =
    let onward = helper pattern text in
    let starred = matches_from (helper pattern) (t ∷ text) in
    if p == b'*' then starred else if p == b'?' then onward else if p == t then onward else false

unfoldable pub glob_match : Bytes → Bytes → Bool
unfolding helper
glob_match pattern text = helper pattern text
