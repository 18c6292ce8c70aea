-- ===== src/Glob.antt =====
-- The host patterns of native/condukt_egress/src/proxy/policy.rs: `Token`, `compile`,
-- `match_tokens`, `matches_one` and `matches_any`. The proofs are in the modules below.
pub mod Matching
pub mod Relation
pub mod Documented
pub mod Compile
pub mod Shapes
mod Tests
use condukt.Prelude.{
  ℕ, ◌+◌, Bool, true, false, List, [], ◌∷◌, ◌++◌, Option, none, some, Str, ltb, ◌==◌, if◌then◌else◌,
  is_empty, any, strip_prefix, to_ascii_lowercase,
}

pub data Token : Type 0 where
  literal : Str → Token
  star : Token
  double_star : Token

abbrev pub asterisk : ℕ
asterisk = b'*'

abbrev pub dot : ℕ
dot = b'.'

-- `if !literal.is_empty() { tokens.push(Token::Literal(..)) }`
abbrev pub flush : List Token → Str → List Token
flush tokens [] = tokens
flush tokens (c ∷ literal_text) = tokens ++ literal (c ∷ literal_text) ∷ []

-- The `while` loop of `compile` over `chars[i..]`, with the literal and the tokens so far.
unfoldable pub compile_loop : Str → Str → List Token → List Token
compile_loop [] lit tokens = flush tokens lit
compile_loop (c ∷ []) lit tokens =
    if c == asterisk then flush tokens lit ++ star ∷ [] else flush tokens (lit ++ c ∷ [])
compile_loop (c ∷ d ∷ rest) lit tokens =
    let double = compile_loop rest [] (flush tokens lit ++ double_star ∷ []) in
    let single = compile_loop (d ∷ rest) [] (flush tokens lit ++ star ∷ []) in
    let plain = compile_loop (d ∷ rest) (lit ++ c ∷ []) tokens in
    if c == asterisk then (if d == asterisk then double else single) else plain

unfoldable pub compile : Str → List Token
unfolding compile_loop
compile pattern_text = compile_loop pattern_text [] []

-- `char::len_utf8`, by which `char_indices` advances
abbrev pub len_utf8 : ℕ → ℕ
len_utf8 c = if ltb c 0x80 then 1 else if ltb c 0x800 then 2 else if ltb c 0x10000 then 3 else 4

-- The `for` loop of the star over `input[idx..]`. `none` means that it met no dot.
unfoldable pub star_loop : (Str → Bool) → ℕ → Str → Option Bool
star_loop next idx [] = none
star_loop next idx (c ∷ s) =
    let onward = star_loop next (idx + len_utf8 c) s in
    if c == dot then some (if idx == 0 then false else next (c ∷ s)) else onward

-- The `for` loop of the double star over the suffixes of `input` from its second character on.
unfoldable pub double_star_loop : (Str → Bool) → Str → Bool
double_star_loop next [] = next []
double_star_loop next (c ∷ s) =
    let onward = double_star_loop next s in if next (c ∷ s) then true else onward

unfoldable pub match_star : (Str → Bool) → Str → Bool
unfolding star_loop
match_star next input = elim (star_loop next 0 input) [
  | some answer ↦ answer
  | none ↦ if is_empty input then false else next []
]

unfoldable pub match_double_star : (Str → Bool) → Str → Bool
unfolding double_star_loop
match_double_star next [] = false
match_double_star next (c ∷ s) = double_star_loop next s

unfoldable pub match_literal : (Str → Bool) → Option Str → Bool
match_literal next (some remaining) = next remaining
match_literal next none = false

unfoldable pub match_tokens : List Token → Str → Bool
unfolding match_literal match_star match_double_star
match_tokens [] input = is_empty input
match_tokens (literal lit ∷ rest) input = match_literal (match_tokens rest) (strip_prefix lit input)
match_tokens (star ∷ rest) input = match_star (match_tokens rest) input
match_tokens (double_star ∷ rest) input = match_double_star (match_tokens rest) input

unfoldable pub matches_one : Str → Str → Bool
unfolding compile match_tokens
matches_one host pattern_text = match_tokens (compile (to_ascii_lowercase pattern_text)) host

unfoldable pub matches_any : Str → List Str → Bool
unfolding matches_one
matches_any host patterns = any (matches_one host) patterns
