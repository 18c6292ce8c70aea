-- ===== src/Bashkit/Reply.antt =====
-- What an operation of a session answers, and the atoms of the interpreter's errors.
pub mod Errors
use condukt.Prelude.{
  ℕ, suc, Bool, true, false, ◌||◌, List, [], ◌∷◌, ◌++◌, Option, none, some, Str, codes, ◌==◌,
  if◌then◌else◌, is_empty, Result, ok, err, not, to_ascii_lowercase,
}
use condukt.Bashkit.Edit.{starts_with}

-- the atoms of errors
pub data Atom : Type 0 where
  error : Atom
  enoent : Atom
  eisdir : Atom
  eexist : Atom
  eacces : Atom
  timeout : Atom
  not_found : Atom
  invalid_path : Atom

pub record ExecResult : Type 0 where
  pub output : Str
  pub exit_code : ℕ

pub record EditResult : Type 0 where
  pub occurrences : ℕ
  pub content : Str

-- `NifResult<Result<A, Atom>>`: raised in the caller, an error atom, or an answer
pub data Reply (A : Type 0) : Type 0 where
  raised : Str → Reply A
  refused : Atom → Reply A
  answered : A → Reply A

-- `str::contains`
abbrev pub contains : Str → Str → Bool
contains [] needle = is_empty needle
contains (c ∷ s) needle = starts_with needle (c ∷ s) || contains s needle

unfoldable pub map_bashkit_error : Str → Atom
map_bashkit_error s =
    let lower = to_ascii_lowercase s in
    if contains lower (codes "not found") || contains lower (codes "no such")
    then enoent
    else if contains lower (codes "is a directory")
    then eisdir
    else if contains lower (codes "already exists")
    then eexist
    else if contains lower (codes "permission") || contains lower (codes "denied")
    then eacces
    else error

abbrev pub map_error : {A C : Type 0} → (A → C) → Result Str A → Reply C
map_error f (ok a) = answered (f a)
map_error f (err e) = refused (map_bashkit_error e)
