-- ===== src/Bashkit/Session.antt =====
-- The operations of a session, each as one step. The interpreter and its file system are a
-- parameter. `read_file`, `write_file` and `edit_file` of the code drop the lock before they use the
-- file system, so that another call may run in between: `Interleaved` cuts them there.
pub mod Editing
pub mod Interleaved
pub mod Opening
use condukt.Prelude.{
  ℕ, suc, Bool, true, false, ◌||◌, List, [], ◌∷◌, ◌++◌, Option, none, some, Str, codes, ◌==◌,
  if◌then◌else◌, is_empty, not, to_ascii_lowercase, Result, ok, err,
}
use condukt.Prelude.Bytes.{Bytes, lines}
use condukt.Bashkit.Text.{is_safe_glob, escape_single_quotes, combine_output}
use condukt.Bashkit.Pattern.{glob_match}
use condukt.Bashkit.Grep.{GrepMatch, parse_grep}
use condukt.Bashkit.Edit.{starts_with, count_occurrences, replace_first}
use condukt.Bashkit.Reply.{
  Atom, error, enoent, eisdir, eexist, eacces, timeout, not_found, invalid_path, ExecResult,
  EditResult, Reply, raised, refused, answered, map_bashkit_error, map_error,
}
use condukt.Bashkit.Script.{glob_script, grep_script}

pub data MountMode : Type 0 where
  readonly : MountMode
  readwrite : MountMode

pub record ExecOutput : Type 0 where
  pub stdout : Str
  pub stderr : Str
  pub exit_code : ℕ

-- What the crate and the standard library do, over the interpreter's state `B`. An error is its
-- text. `exec_within` gives `none` when the time is over, in whatever state the command has reached.
pub record Backend (B : Type 0) : Type 0 where
  pub exec : Str → B → Result Str ExecOutput × B
  pub exec_within : ℕ → Str → B → Option (Result Str ExecOutput) × B
  pub read_file : Str → B → Result Str Bytes
  pub write_file : Str → Bytes → B → Result Str (Unit {0}) × B
  pub mkdir : Str → B → B
  pub parent : Str → Option Str
  pub file_name : Str → Option Str
  pub open_real : Str → MountMode → Bool
  pub mount : Str → Str → MountMode → B → Result Str (Unit {0}) × B
  pub unmount : Str → B → Result Str (Unit {0}) × B
  pub from_utf8_lossy : Bytes → Str
  pub as_bytes : Str → Bytes

-- the `Mutex` around the interpreter, poisoned by a panic under it
pub record Session (B : Type 0) : Type 0 where
  pub bash : B
  pub poisoned : Bool

abbrev pub lock_error : Str
lock_error = codes "bashkit session lock poisoned"

-- the lock at the start of every operation
abbrev pub with_lock : {B A : Type 0} → Session B → (B → Reply A × B) → Reply A × Session B
with_lock s f =
    if s.poisoned
    then (raised lock_error, s)
    else let (reply, bash) = f s.bash in (reply, record { bash = bash; poisoned = false })

abbrev pub exec_result : ExecOutput → ExecResult
exec_result r = record { output = combine_output r.stdout r.stderr; exit_code = r.exit_code }

abbrev pub nonempty : List Str → List Str
nonempty [] = []
nonempty (l ∷ ls) = let rest = nonempty ls in if is_empty l then rest else l ∷ rest

abbrev pub unwrap_or : Option Str → Str → Str
unwrap_or none d = d
unwrap_or (some a) d = a

abbrev pub unmount_reply : Result Str (Unit {0}) → Reply (Unit {0})
unmount_reply (ok u) = answered u
unmount_reply (err e) = refused not_found

module _ {B : Type 0} (b : Backend B) where
  abbrev pub exec_reply : Option (Result Str ExecOutput) × B → Reply ExecResult × B
  exec_reply (none, after) = (refused timeout, after)
  exec_reply (some r, after) = (map_error exec_result r, after)

  abbrev pub run_command : Str → Option ℕ → B → Option (Result Str ExecOutput) × B
  run_command command none bash = let (r, after) = b.exec command bash in (some r, after)
  run_command command (some ms) bash = b.exec_within ms command bash

  unfoldable pub exec : Session B → Str → Option ℕ → Reply ExecResult × Session B
  unfolding map_bashkit_error
  exec s command timeout_ms = with_lock s (λ bash. exec_reply (run_command command timeout_ms bash))

  unfoldable pub read_file : Session B → Str → Reply Bytes × Session B
  unfolding map_bashkit_error
  read_file s path =
      with_lock s (λ bash. (map_error (λ bytes. bytes) (b.read_file path bash), bash))

  abbrev pub make_parent : Option Str → B → B
  make_parent none bash = bash
  make_parent (some parent) bash = if is_empty parent then bash else b.mkdir parent bash

  unfoldable pub write_file : Session B → Str → Bytes → Reply (Unit {0}) × Session B
  unfolding map_bashkit_error
  write_file s path content = with_lock s (λ bash.
      let (r, after) = b.write_file path content (make_parent (b.parent path) bash) in
      (map_error (λ u. u) r, after))

  abbrev pub edited : Str → Result Str (Unit {0}) × B → Reply EditResult × B
  edited new_content (ok _, after) =
      (answered (record { occurrences = 1; content = new_content }), after)
  edited new_content (err e, after) = (refused (map_bashkit_error e), after)

  abbrev pub edit_content : Str → Str → Str → Str → B → Reply EditResult × B
  edit_content path old_text new_text content bash =
      if count_occurrences content old_text == 1
      then (let new_content = replace_first content old_text new_text in
          edited new_content (b.write_file path (b.as_bytes new_content) bash))
      else (
        answered (record { occurrences = count_occurrences content old_text; content = content }),
        bash,
      )

  abbrev pub edit_read : Str → Str → Str → Result Str Bytes → B → Reply EditResult × B
  edit_read path old_text new_text (err e) bash = (refused (map_bashkit_error e), bash)
  edit_read path old_text new_text (ok bytes) bash =
      edit_content path old_text new_text (b.from_utf8_lossy bytes) bash

  unfoldable pub edit_file : Session B → Str → Str → Str → Reply EditResult × Session B
  unfolding map_bashkit_error count_occurrences replace_first
  edit_file s path old_text new_text =
      with_lock s (λ bash. edit_read path old_text new_text (b.read_file path bash) bash)

  unfoldable pub glob : Session B → Str → Option Str → Reply (List Str) × Session B
  unfolding map_bashkit_error is_safe_glob glob_script lines
  glob s pattern cwd = with_lock s (λ bash.
      if is_safe_glob pattern
      then (let (r, after) = b.exec (glob_script pattern cwd) bash in
          (map_error (λ out. nonempty (lines out.stdout)) r, after))
      else (answered [], bash))

  unfoldable pub matches_basename_glob : Str → Str → Bool
  unfolding glob_match
  matches_basename_glob full_path pattern =
      glob_match (b.as_bytes pattern) (b.as_bytes (unwrap_or (b.file_name full_path) full_path))

  abbrev pub keep : Str → List GrepMatch → List GrepMatch
  keep g [] = []
  keep g (m ∷ ms) =
      let rest = keep g ms in if matches_basename_glob m.path g then m ∷ rest else rest

  abbrev pub filtered : Option Str → List GrepMatch → List GrepMatch
  filtered none ms = ms
  filtered (some g) ms = keep g ms

  unfoldable pub grep :
      Session B → Str → Option Str → Bool → Option Str → Reply (List GrepMatch) × Session B
  unfolding map_bashkit_error grep_script parse_grep matches_basename_glob
  grep s pattern path case_sensitive file_glob = with_lock s (λ bash.
      let (r, after) =
        b.exec (grep_script pattern (unwrap_or path (codes "/")) case_sensitive) bash in
      (map_error (λ out. filtered file_glob (parse_grep out.stdout)) r, after))

  unfoldable pub mount : Session B → Str → Str → MountMode → Reply (Unit {0}) × Session B
  unfolding map_bashkit_error
  mount s host_path vfs_path mode = with_lock s (λ bash.
      if b.open_real host_path mode
      then (let (r, after) = b.mount host_path vfs_path mode bash in (map_error (λ u. u) r, after))
      else (refused invalid_path, bash))

  unfoldable pub unmount : Session B → Str → Reply (Unit {0}) × Session B
  unmount s vfs_path =
      with_lock s (λ bash. let (r, after) = b.unmount vfs_path bash in (unmount_reply r, after))
