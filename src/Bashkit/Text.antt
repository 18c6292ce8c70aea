-- ===== src/Bashkit/Text.antt =====
-- `is_safe_glob`, `escape_single_quotes` and `combine_output`.
pub mod Quoting
use condukt.Prelude.{
  ℕ, suc, Bool, true, false, ◌&&◌, ◌||◌, List, [], ◌∷◌, ◌++◌, Option, none, some, Str, codes, ◌==◌,
  if◌then◌else◌, is_empty, not, strip_prefix,
}

-- the characters that `is_safe_glob` refuses
abbrev pub forbidden : Str
forbidden = codes "`$;|&<>()'\"" ++ 10 ∷ 13 ∷ []

abbrev pub has : ℕ → Str → Bool
has c [] = false
has c (d ∷ s) = c == d || has c s

unfoldable pub is_safe_glob : Str → Bool
is_safe_glob [] = true
is_safe_glob (c ∷ s) = not (has c forbidden) && is_safe_glob s

abbrev pub quote : ℕ
quote = b'\''

-- `s.replace('\'', "'\\''")`
unfoldable pub escape_single_quotes : Str → Str
escape_single_quotes [] = []
escape_single_quotes (c ∷ s) =
    if c == quote then codes "'\\''" ++ escape_single_quotes s else c ∷ escape_single_quotes s

abbrev pub combine_output : Str → Str → Str
combine_output stdout stderr =
    if is_empty stderr then stdout else if is_empty stdout then stderr else stdout ++ stderr
