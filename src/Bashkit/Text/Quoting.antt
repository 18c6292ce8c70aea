-- ===== src/Bashkit/Text/Quoting.antt =====
-- What a shell reads where the code puts an escaped text between single quotes.
use condukt.Prelude.{
  ℕ, ◌≡◌, refl, ◌∙◌, Bool, true, [], ◌∷◌, ◌++◌, Option, none, some, Str, codes, ◌==◌, ==_iff,
  if◌then◌else◌, arith, Bool-cases, inl, inr,
}
use condukt.Bashkit.Text.{has, quote, escape_single_quotes}

-- where the reader of a word stands: outside of quotes, behind a backslash there, or inside
pub data Mode : Type 0 where
  outside : Mode
  escaped : Mode
  inside : Mode

-- a blank, a newline or an operator ends a word outside of quotes
abbrev pub ends_word : ℕ → Bool
ends_word c = has c (codes " ;|&<>()" ++ 9 ∷ 10 ∷ [])

abbrev literal : ℕ → Option (Str × Str) → Option (Str × Str)
literal c none = none
literal c (some (word, rest)) = some (c ∷ word, rest)

-- A word by POSIX's rules for backslash and single quotes, and what follows it; nothing where a
-- quote stays open. Other expansions are not read.
unfoldable pub read_word : Mode → Str → Option (Str × Str)
read_word outside [] = some ([], [])
read_word escaped [] = none
read_word inside [] = none
read_word escaped (c ∷ s) = literal c (read_word outside s)
read_word inside (c ∷ s) =
    let closed = read_word outside s in
    let further = literal c (read_word inside s) in if c == quote then closed else further
read_word outside (c ∷ s) =
    let opened = read_word inside s in
    let behind = read_word escaped s in
    let further = literal c (read_word outside s) in
    if c == quote
    then opened
    else if c == b'\\'
    then behind
    else if ends_word c
    then some ([], c ∷ s)
    else further

-- What may follow a word.
pub data IsEnd : Str → Type 0 where
  nothing : IsEnd []
  ending : {c : ℕ} (s : Str) → ends_word c ≡ true → IsEnd (c ∷ s)

read_end : {rest : Str} → IsEnd rest → read_word outside rest ≡ some ([], rest)
unfolding read_word
read_end nothing = refl
read_end (ending {c} s e) = ground (arith, ==_iff c quote, ==_iff c b'\\')

read_inside :
    (s rest : Str)
    → IsEnd rest
    → read_word inside (escape_single_quotes s ++ quote ∷ rest) ≡ some (s, rest)
unfolding escape_single_quotes read_word
read_inside [] rest e = read_end e
read_inside (c ∷ s) rest e = elim (Bool-cases (c == quote)) [
  | inl same ↦ ground (arith, read_inside s rest e, ==_iff c quote)
  | inr other ↦ ground (arith, read_inside s rest e)
]

-- A text that is escaped and put between single quotes is read back by a shell as one word that is
-- the text itself, whatever characters the text holds, and the word ends where the quotes end.
pub read_word-escape_single_quotes :
    (s rest : Str)
    → IsEnd rest
    → read_word outside (quote ∷ (escape_single_quotes s ++ quote ∷ rest)) ≡ some (s, rest)
read_word-escape_single_quotes s rest e = opened ∙ read_inside s rest e
  where
    opened :
        read_word outside (quote ∷ (escape_single_quotes s ++ quote ∷ rest))
        ≡ read_word inside (escape_single_quotes s ++ quote ∷ rest)
    opened = unfold read_word in refl
