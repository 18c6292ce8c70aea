-- ===== src/Prelude/Decimal.antt =====
-- Rust's `to_string` of an unsigned integer, and `str::parse::<u64>`.
use Prim.Native.Nat.{ℕ, zero, suc, ◌+◌, ◌-◌, ◌*◌, ◌/◌, ◌%◌, ◌^◌, ◌<◌, ◌≤◌}
use mathlib.Core.Path.{◌≡◌, refl, sym, ap, ◌∙◌}
use mathlib.Core.Bool.{◌&&◌}
use mathlib.Core.List.{[], ◌∷◌}
use mathlib.Core.Option.{Option, none, some}
use mathlib.Core.Logic.{inl, inr}
use native.Mathlib.Omega.{arith}
use condukt.Prelude.Tests.{ltb, leb, ◌==◌, Bool-cases, if◌then◌else◌}
use condukt.Prelude.Lists.{All}
use condukt.Prelude.Strings.{Str}

-- The digits of `n` in front of `rest`. A number below 10 ^ fuel needs `fuel` rounds.
decimal_from : ℕ → ℕ → Str → Str
decimal_from zero n rest = rest
decimal_from (suc fuel) n rest =
    let onward = decimal_from fuel (n / 10) ((48 + n % 10) ∷ rest) in
    if ltb n 10 then (48 + n) ∷ rest else onward

unfoldable pub decimal : ℕ → Str
unfolding decimal_from
decimal n = decimal_from (suc n) n []

abbrev pub u64_max : ℕ
u64_max = 2 ^ 64 - 1

-- the digits behind `acc`; an overflow is an error
parse_digits : ℕ → Str → Option ℕ
parse_digits acc [] = some acc
parse_digits acc (c ∷ s) =
    let next = acc * 10 + (c - 48) in
    let onward = parse_digits next s in
    if leb 48 c && leb c 57 then (if leb next u64_max then onward else none) else none

-- `str::parse::<u64>().ok()`: an optional plus sign, and at least one digit
unfoldable pub parse_u64 : Str → Option ℕ
unfolding parse_digits
parse_u64 [] = none
parse_u64 (c ∷ []) = parse_digits 0 (c ∷ [])
parse_u64 (c ∷ d ∷ s) = if c == b'+' then parse_digits 0 (d ∷ s) else parse_digits 0 (c ∷ d ∷ s)

-- Reading the digits of `n` and `rest` goes on behind `n`.
parse_decimal :
    (fuel n : ℕ) (rest : Str)
    → n < fuel
    → n ≤ u64_max
    → parse_digits 0 (decimal_from fuel n rest) ≡ parse_digits n rest
unfolding decimal_from parse_digits
parse_decimal zero n rest h b = absurd (omega arith)
parse_decimal (suc fuel) n rest h b = elim (Bool-cases (ltb n 10)) [
  | inl small ↦ ground arith
  | inr large ↦ rw large (
      parse_decimal fuel (n / 10) ((48 + n % 10) ∷ rest) (ground arith) (ground arith)
      ∙ ground arith)
]

-- there is a digit
decimal_from-cons :
    (fuel n d : ℕ) (rest : Str) → (c : ℕ) × (s : Str) × (decimal_from fuel n (d ∷ rest) ≡ c ∷ s)
unfolding decimal_from
decimal_from-cons zero n d rest = (d, rest, refl)
decimal_from-cons (suc fuel) n d rest = elim (Bool-cases (ltb n 10)) [
  | inl small ↦ (48 + n, d ∷ rest, rw small refl)
  | inr large ↦
      let (c, s, e) = decimal_from-cons fuel (n / 10) (48 + n % 10) (d ∷ rest) in (c, s, rw large e)
]

decimal-cons : (n : ℕ) → (c : ℕ) × (s : Str) × (decimal n ≡ c ∷ s)
unfolding decimal decimal_from
decimal-cons n = elim (Bool-cases (ltb n 10)) [
  | inl small ↦ (48 + n, [], rw small refl)
  | inr large ↦ let (c, s, e) = decimal_from-cons n (n / 10) (48 + n % 10) [] in (c, s, rw large e)
]

parse_u64-digits :
    (c : ℕ) (s : Str) (m : ℕ) → parse_digits 0 (c ∷ s) ≡ some m → parse_u64 (c ∷ s) ≡ some m
unfolding parse_u64 parse_digits
parse_u64-digits c [] m h = h
parse_u64-digits c (d ∷ s) m h = ground arith

-- Reading back the digits of a 64-bit number gives the number.
pub parse_u64-decimal : (n : ℕ) → n ≤ u64_max → parse_u64 (decimal n) ≡ some n
parse_u64-decimal n b =
    let (c, s, e) = decimal-cons n in
    ap parse_u64 e ∙ parse_u64-digits c s n (ap (parse_digits 0) (sym e) ∙ all_digits)
  where
    all_digits : parse_digits 0 (decimal n) ≡ some n
    all_digits = unfold decimal parse_digits in parse_decimal (suc n) n [] (omega arith) b

abbrev pub IsDigit : ℕ → Type 0
IsDigit c = (48 ≤ c) × (c ≤ 57)

decimal_from-IsDigit :
    (fuel n : ℕ) (rest : Str) → n < fuel → All IsDigit rest → All IsDigit (decimal_from fuel n rest)
unfolding decimal_from
decimal_from-IsDigit zero n rest h r = r
decimal_from-IsDigit (suc fuel) n rest h r = elim (Bool-cases (ltb n 10)) [
  | inl small ↦ rw small ((omega arith, ground arith), r)
  | inr large ↦ rw large (
      decimal_from-IsDigit fuel (n / 10) ((48 + n % 10) ∷ rest) (ground arith)
        ((omega arith, omega arith), r))
]

pub decimal-IsDigit : (n : ℕ) → All IsDigit (decimal n)
unfolding decimal
decimal-IsDigit n = decimal_from-IsDigit (suc n) n [] (omega arith) tt
