-- ===== src/Conn/Outcome.antt =====
-- `Result<_, String>` with its labels, as `handle` and what it calls use it.
use condukt.Prelude.{List, [], ◌∷◌, ◌++◌, Option, none, some, Str, codes, Result, ok, err}

-- `Result<_, String>`
abbrev pub Outcome {ℓ} : Type ℓ → Type ℓ
Outcome A = Result Str A

-- `map_err(|e| format!("label: {e}"))`
abbrev pub labelled : Str → Str → Str
labelled label e = label ++ codes ": " ++ e

-- Errors as a table: a step's label in front of its error, or in its place.
abbrev pub errors_as : Str → Option Str → Option Str
errors_as label none = none
errors_as label (some e) = some (labelled label e)

abbrev pub error_is : Str → Option Str → Option Str
error_is label none = none
error_is label (some e) = some label

abbrev pub first_error : List (Option Str) → Option Str
first_error [] = none
first_error (none ∷ rest) = first_error rest
first_error (some e ∷ rest) = some e

abbrev pub outcome_of : Option Str → Outcome (Unit {0})
outcome_of none = ok tt
outcome_of (some e) = err e
