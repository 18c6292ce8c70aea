-- ===== src/Prelude/Bytes.antt =====
-- Rust's `str::from_utf8`, `str::lines` and `str::trim`, over lists of bytes and
-- of code points.
use Prim.Native.Nat.{ℕ, ◌+◌, ◌-◌, ◌*◌}
use mathlib.Core.Path.{◌≡◌, refl}
use mathlib.Core.Bool.{Bool, ◌&&◌, ◌||◌}
use mathlib.Core.List.{List, [], ◌∷◌, ◌++◌, reverse}
use mathlib.Core.Option.{Option, none, some}
use condukt.Prelude.Tests.{ltb, leb, ◌==◌, if◌then◌else◌, not}
use condukt.Prelude.Lists.{is_empty}
use condukt.Prelude.Strings.{Str, codes}

abbrev pub Bytes : Type 0
Bytes = List ℕ

-- a continuation byte
abbrev is_cont : ℕ → Bool
is_cont b = leb 0x80 b && leb b 0xBF

abbrev cons? : ℕ → Option Str → Option Str
cons? c none = none
cons? c (some s) = some (c ∷ s)

abbrev two : ℕ → ℕ → ℕ
two a b = (a - 0xC0) * 64 + (b - 0x80)

abbrev three : ℕ → ℕ → ℕ → ℕ
three a b c = (a - 0xE0) * 4096 + (b - 0x80) * 64 + (c - 0x80)

abbrev four : ℕ → ℕ → ℕ → ℕ → ℕ
four a b c d = (a - 0xF0) * 262144 + (b - 0x80) * 4096 + (c - 0x80) * 64 + (d - 0x80)

abbrev is_two : ℕ → ℕ → Bool
is_two a b = leb 0xC2 a && leb a 0xDF && is_cont b

-- no overlong forms and no surrogates
abbrev is_three : ℕ → ℕ → ℕ → Bool
is_three a b c =
    leb 0xE0 a
    && leb a 0xEF
    && is_cont b
    && is_cont c
    && (not (a == 0xE0) || leb 0xA0 b)
    && (not (a == 0xED) || leb b 0x9F)

-- no overlong forms, and nothing above U+10FFFF
abbrev is_four : ℕ → ℕ → ℕ → ℕ → Bool
is_four a b c d =
    leb 0xF0 a
    && leb a 0xF4
    && is_cont b
    && is_cont c
    && is_cont d
    && (not (a == 0xF0) || leb 0x90 b)
    && (not (a == 0xF4) || leb b 0x8F)

-- `str::from_utf8(bytes).ok()`
unfoldable pub from_utf8 : Bytes → Option Str
from_utf8 [] = some []
from_utf8 (a ∷ []) = if ltb a 0x80 then some (a ∷ []) else none
from_utf8 (a ∷ b ∷ []) =
    let one_byte = cons? a (from_utf8 (b ∷ [])) in
    if ltb a 0x80 then one_byte else if is_two a b then some (two a b ∷ []) else none
from_utf8 (a ∷ b ∷ c ∷ []) =
    let one_byte = cons? a (from_utf8 (b ∷ c ∷ [])) in
    let two_bytes = cons? (two a b) (from_utf8 (c ∷ [])) in
    if ltb a 0x80
    then one_byte
    else if is_two a b
    then two_bytes
    else if is_three a b c
    then some (three a b c ∷ [])
    else none
from_utf8 (a ∷ b ∷ c ∷ d ∷ rest) =
    let one_byte = cons? a (from_utf8 (b ∷ c ∷ d ∷ rest)) in
    let two_bytes = cons? (two a b) (from_utf8 (c ∷ d ∷ rest)) in
    let three_bytes = cons? (three a b c) (from_utf8 (d ∷ rest)) in
    let four_bytes = cons? (four a b c d) (from_utf8 rest) in
    if ltb a 0x80
    then one_byte
    else if is_two a b
    then two_bytes
    else if is_three a b c
    then three_bytes
    else if is_four a b c d
    then four_bytes
    else none

-- `char::is_whitespace`
abbrev pub is_whitespace : ℕ → Bool
is_whitespace c =
    (leb 9 c && leb c 13)
    || c == 32
    || c == 0x85
    || c == 0xA0
    || c == 0x1680
    || (leb 0x2000 c && leb c 0x200A)
    || c == 0x2028
    || c == 0x2029
    || c == 0x202F
    || c == 0x205F
    || c == 0x3000

abbrev pub trim_start : Str → Str
trim_start [] = []
trim_start (c ∷ s) = let onward = trim_start s in if is_whitespace c then onward else c ∷ s

unfoldable pub trim : Str → Str
trim s = reverse (trim_start (reverse (trim_start s)))

-- `strip_suffix('\r')`, or the line itself
abbrev pub strip_cr : Str → Str
strip_cr [] = []
strip_cr (c ∷ []) = if c == 13 then [] else c ∷ []
strip_cr (c ∷ d ∷ s) = c ∷ strip_cr (d ∷ s)

-- `str::lines`, with the current line so far
unfoldable pub lines_from : Str → Str → List Str
lines_from line [] = if is_empty line then [] else line ∷ []
lines_from line (c ∷ s) =
    let ended = strip_cr line ∷ lines_from [] s in
    let onward = lines_from (line ++ c ∷ []) s in if c == 10 then ended else onward

unfoldable pub lines : Str → List Str
unfolding lines_from
lines s = lines_from [] s

euro_sign : from_utf8 (0x61 ∷ 0xE2 ∷ 0x82 ∷ 0xAC ∷ []) ≡ some (0x61 ∷ 0x20AC ∷ [])
unfolding from_utf8
euro_sign = refl

not_utf8 : from_utf8 (0xFF ∷ 0xFE ∷ 0x00 ∷ []) ≡ none
unfolding from_utf8
not_utf8 = refl

two_lines : lines (codes "a\r\n\nb") ≡ codes "a" ∷ [] ∷ codes "b" ∷ []
unfolding lines
two_lines = refl

trimmed : trim (codes "  lower.example.com ") ≡ codes "lower.example.com"
unfolding trim
trimmed = refl
