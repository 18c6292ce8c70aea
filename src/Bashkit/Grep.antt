-- ===== src/Bashkit/Grep.antt =====
-- `parse_grep`: the lines of grep's output as matches.
pub mod Output
use condukt.Prelude.{
  ℕ, Bool, true, false, List, [], ◌∷◌, ◌++◌, Option, none, some, Str, codes, ◌==◌, if◌then◌else◌,
}
use condukt.Prelude.Bytes.{lines}
use condukt.Prelude.Decimal.{parse_u64}

pub record GrepMatch : Type 0 where
  pub path : Str
  pub line_number : ℕ
  pub line : Str

abbrev pub colon : ℕ
colon = b':'

-- One step of `splitn`: the part in front of the first colon, and what follows it.
unfoldable pub split_colon : Str → Option (Str × Str)
split_colon [] = none
split_colon (c ∷ s) =
    if c == colon
    then some ([], s)
    else elim (split_colon s) [ none ↦ none | some (before, after) ↦ some (c ∷ before, after) ]

infixl 5 ◌>>=◌
abbrev pub ◌>>=◌ {ℓ κ} : {A : Type ℓ} {B : Type κ} → Option A → (A → Option B) → Option B
none >>= f = none
some a >>= f = f a

-- The closure of `filter_map`. A line with fewer than two colons has no third part.
unfoldable pub parse_line : Str → Option GrepMatch
unfolding split_colon parse_u64
parse_line line = do
  (path, rest) ← split_colon line
  (line_num_str, content) ← split_colon rest
  line_number ← parse_u64 line_num_str
  some (record { path = path; line_number = line_number; line = content })

-- `filter_map(…).collect()`
unfoldable pub parse_lines : List Str → List GrepMatch
unfolding parse_line
parse_lines [] = []
parse_lines (line ∷ rest) = elim (parse_line line) [
  | none ↦ parse_lines rest
  | some m ↦ m ∷ parse_lines rest
]

unfoldable pub parse_grep : Str → List GrepMatch
unfolding parse_lines lines
parse_grep output = parse_lines (lines output)
