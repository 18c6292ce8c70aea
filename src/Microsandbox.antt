-- ===== src/Microsandbox.antt =====
-- native/condukt_microsandbox/src/lib.rs: the session of a microVM. The crate `microsandbox` is a
-- parameter. A call that waits for the runtime is one step here, and is cut in
-- `Interleaved`; the two locks of a session may each be poisoned by a panic under them.
pub mod Closing
pub mod Interleaved
pub mod Opening
pub mod Labels
mod Tests
use condukt.Prelude.{
  ℕ, Bool, true, false, ◌||◌, List, [], ◌∷◌, ◌++◌, Option, none, some, Str, codes, if◌then◌else◌,
  is_empty, Result, ok, err,
}
use condukt.Prelude.Bytes.{Bytes}
use condukt.Bashkit.Reply.{contains, ExecResult}

-- `std::io::ErrorKind`, as far as the code tells kinds apart
pub data IoKind : Type 0 where
  not_found : IoKind
  permission_denied : IoKind
  already_exists : IoKind
  is_a_directory : IoKind
  other_kind : IoKind

-- `MicrosandboxError`: the text is that of `to_string`
pub data MicrosandboxError : Type 0 where
  exec_timeout : MicrosandboxError
  io : IoKind → Str → MicrosandboxError
  sandbox_fs : Str → MicrosandboxError
  other : Str → MicrosandboxError

pub record ExecOutput : Type 0 where
  pub stdout : Option Str
  pub stderr : Option Str
  pub code : ℕ

pub record Command : Type 0 where
  pub shell : Str
  pub command : Str
  pub cwd : Str
  pub env : List (Str × Str)
  pub timeout_ms : Option ℕ

-- What the crate does with a sandbox `H` in a world `W`, and what the standard library does with
-- paths and letters.
pub record Backend (H W : Type 0) : Type 0 where
  pub stop_and_wait : H → W → W
  pub exec_with : H → Command → W → Result MicrosandboxError ExecOutput × W
  pub read : H → Str → W → Result MicrosandboxError Bytes × W
  pub mkdir : H → Str → W → Result MicrosandboxError (Unit {0}) × W
  pub write : H → Str → Bytes → W → Result MicrosandboxError (Unit {0}) × W
  -- whether a fresh runtime can be built
  pub builds_placeholder : Bool
  pub parent : Str → Option Str
  pub to_lowercase : Str → Str

pub record Session (H : Type 0) : Type 0 where
  pub sandbox : Option H
  pub sandbox_poisoned : Bool
  pub runtime_poisoned : Bool
  -- the runtime was given up for a fresh one
  pub detached : Bool

-- `NifResult<Result<A, String>>`: raised in the caller, an error label, or an answer
pub data Reply (A : Type 0) : Type 0 where
  raised : Str → Reply A
  failed : Str → Reply A
  answered : A → Reply A

abbrev pub lock_error : Str
lock_error = codes "microsandbox session lock poisoned"

abbrev pub closed_error : Str
closed_error = codes "sandbox closed"

abbrev pub get_or_default : Option Str → Str
get_or_default none = []
get_or_default (some s) = s

-- `label_for_io`
abbrev pub label_for_io : IoKind → Str → Str
label_for_io not_found text = codes "enoent"
label_for_io permission_denied text = codes "eacces"
label_for_io already_exists text = codes "eexist"
label_for_io is_a_directory text = codes "eisdir"
label_for_io other_kind text = text

abbrev pub take_sandbox : {H : Type 0} → Session H → Option H × Session H
take_sandbox s = if s.sandbox_poisoned then (none, s) else (s.sandbox, record s { sandbox = none })

abbrev pub opened : {H : Type 0} → Option H → Result Str H
opened none = err closed_error
opened (some h) = ok h

abbrev pub clone_sandbox : {H : Type 0} → Session H → Result Str H
clone_sandbox s = if s.sandbox_poisoned then err lock_error else opened s.sandbox

-- the lock of the runtime, in front of every use of the sandbox
abbrev pub use_sandbox :
    {H W A : Type 0} → Result Str H → Bool → (H → W → Reply A × W) → W → Reply A × W
use_sandbox (err e) poisoned use_it w = (raised e, w)
use_sandbox (ok h) poisoned use_it w = if poisoned then (raised lock_error, w) else use_it h w

-- `clone_sandbox(&session)?`, and what follows
abbrev pub with_sandbox : {H W A : Type 0} → Session H → (H → W → Reply A × W) → W → Reply A × W
with_sandbox s use_it w = use_sandbox (clone_sandbox s) s.runtime_poisoned use_it w

abbrev pub combine_output : Str → Str → Str
combine_output stdout stderr =
    if is_empty stderr then stdout else if is_empty stdout then stderr else stdout ++ stderr

module _ {H W : Type 0} (b : Backend H W) where
  unfoldable pub label_for_message : Str → Str
  label_for_message message =
      let lower = b.to_lowercase message in
      if contains lower (codes "no such file") || contains lower (codes "not found")
      then codes "enoent"
      else if contains lower (codes "permission denied")
      then codes "eacces"
      else if contains lower (codes "already exists")
      then codes "eexist"
      else if contains lower (codes "is a directory")
      then codes "eisdir"
      else message

  unfoldable pub label_for_error : MicrosandboxError → Str
  unfolding label_for_message
  label_for_error exec_timeout = codes "timeout"
  label_for_error (io kind text) = label_for_io kind text
  label_for_error (sandbox_fs message) = label_for_message message
  label_for_error (other text) = label_for_message text

  abbrev pub reply : {A C : Type 0} → (A → C) → Result MicrosandboxError A × W → Reply C × W
  reply f (ok a, w) = (answered (f a), w)
  reply f (err e, w) = (failed (label_for_error e), w)

  abbrev pub exec_result : ExecOutput → ExecResult
  exec_result out = record {
    output = combine_output (get_or_default out.stdout) (get_or_default out.stderr);
    exit_code = out.code;
  }

  unfoldable pub exec : Session H → Command → W → Reply ExecResult × W
  unfolding label_for_error
  exec s command w = with_sandbox s (λ h v. reply exec_result (b.exec_with h command v)) w

  unfoldable pub read_file : Session H → Str → W → Reply Bytes × W
  unfolding label_for_error
  read_file s path w = with_sandbox s (λ h v. reply (λ bytes. bytes) (b.read h path v)) w

  -- the `?` behind `mkdir`
  abbrev pub then_write :
      H
      → Str
      → Bytes
      → Result MicrosandboxError (Unit {0}) × W
      → Result MicrosandboxError (Unit {0}) × W
  then_write h path content (err e, w) = (err e, w)
  then_write h path content (ok _, w) = b.write h path content w

  abbrev pub make_parent : H → Option Str → W → Result MicrosandboxError (Unit {0}) × W
  make_parent h none w = (ok tt, w)
  make_parent h (some parent) w = if is_empty parent then (ok tt, w) else b.mkdir h parent w

  unfoldable pub write_file : Session H → Str → Bytes → W → Reply (Unit {0}) × W
  unfolding label_for_error
  write_file s path content w =
      with_sandbox s
        (λ h v. reply (λ u. u) (then_write h path content (make_parent h (b.parent path) v))) w

  abbrev pub stop_taken : Option H → Bool → W → W
  stop_taken none poisoned w = w
  stop_taken (some h) poisoned w = if poisoned then w else b.stop_and_wait h w

  unfoldable pub shutdown : Session H → W → Session H × W
  shutdown s w =
      let (taken, after) = take_sandbox s in (after, stop_taken taken s.runtime_poisoned w)

  -- the runtime is swapped for a fresh one, if one can be built, and shut down in the background
  abbrev pub detach : Session H → Session H
  detach s =
      if s.runtime_poisoned
      then s
      else if b.builds_placeholder
      then record s { detached = true }
      else s

  -- `drop`: the sandbox as in `shutdown`, and then the runtime
  unfoldable pub drop : Session H → W → Session H × W
  drop s w =
      let (taken, after) = take_sandbox s in (detach after, stop_taken taken s.runtime_poisoned w)
