-- ===== src/Bashkit/Session/Interleaved.antt =====
-- `read_file`, `write_file` and `edit_file` among other calls of the session: they release the lock
-- before they use the file system, so that other calls may run before each use. Calls are numbered.
pub mod Race
use condukt.Prelude.{ℕ, ◌≡◌, Bool, true, false, Str, ◌==◌, if◌then◌else◌, Result, ok, err}
use condukt.Prelude.Bytes.{Bytes}
use condukt.Bashkit.Edit.{count_occurrences, replace_first}
use condukt.Bashkit.Reply.{
  Reply, raised, refused, answered, EditResult, map_bashkit_error, map_error,
}
use condukt.Bashkit.Session.{Backend, Session, lock_error, make_parent}

pub record EditCall : Type 0 where
  pub path : Str
  pub old_text : Str
  pub new_text : Str

pub data Call : Type 0 where
  read_call : Str → Call
  write_call : Str → Bytes → Call
  edit_call : EditCall → Call

-- what the three operations answer
pub data Answer : Type 0 where
  contents : Bytes → Answer
  written : Answer
  edited : EditResult → Answer

-- Where a call stands: before the lock; without the lock, before the read of `read_file`; before
-- `write_file` makes the parent directory, and before it writes; before `edit_file` reads, and before
-- it writes the edited content; and returned.
pub data Phase : Type 0 where
  locking : Call → Phase
  reading : Str → Phase
  making : Str → Bytes → Phase
  storing : Str → Bytes → Phase
  examining : EditCall → Phase
  replacing : EditCall → Str → Phase
  returned : Reply Answer → Phase

pub record Shared (B : Type 0) : Type 0 where
  pub session : Session B
  pub phase : ℕ → Phase

abbrev pub moved : (ℕ → Phase) → ℕ → Phase → ℕ → Phase
moved f t p u = if t == u then p else f u

-- the session before its first call
abbrev pub begin : {B : Type 0} → (ℕ → Call) → Session B → Shared B
begin calls s = record { session = s; phase = λ t. Phase.locking (calls t) }

-- after the lock, which is dropped once the handle of the file system is cloned
abbrev pub unlocked : Call → Phase
unlocked (Call.read_call path) = Phase.reading path
unlocked (Call.write_call path content) = Phase.making path content
unlocked (Call.edit_call call) = Phase.examining call

abbrev pub at_lock : Bool → Call → Phase
at_lock true call = Phase.returned (raised lock_error)
at_lock false call = unlocked call

-- after the read of an edit
abbrev pub at_content : EditCall → Str → Phase
at_content call content =
    if count_occurrences content call.old_text == 1
    then Phase.replacing call (replace_first content call.old_text call.new_text)
    else Phase.returned (
        answered (
          Answer.edited
            (record { occurrences = count_occurrences content call.old_text; content = content })))

-- the answer of the write of an edit
abbrev pub write_reply : Str → Result Str (Unit {0}) → Reply Answer
write_reply new_content (ok u) =
    answered (Answer.edited (record { occurrences = 1; content = new_content }))
write_reply new_content (err e) = refused (map_bashkit_error e)

module _ {B : Type 0} (b : Backend B) where
  abbrev pub at_read : EditCall → Result Str Bytes → Phase
  at_read call (err e) = Phase.returned (refused (map_bashkit_error e))
  at_read call (ok bytes) = at_content call (b.from_utf8_lossy bytes)

  -- one step of a call: where it then stands, and the session
  abbrev pub advance : Phase → Session B → Phase × Session B
  advance (Phase.locking call) s = (at_lock s.poisoned call, s)
  advance (Phase.reading path) s =
      (Phase.returned (map_error Answer.contents (b.read_file path s.bash)), s)
  advance (Phase.making path content) s =
      (Phase.storing path content, record s { bash = make_parent b (b.parent path) s.bash })
  advance (Phase.storing path content) s =
      let (r, after) = b.write_file path content s.bash in
      (Phase.returned (map_error (λ u. Answer.written) r), record s { bash = after })
  advance (Phase.examining call) s = (at_read call (b.read_file call.path s.bash), s)
  advance (Phase.replacing call new_content) s =
      let (r, after) = b.write_file call.path (b.as_bytes new_content) s.bash in
      (Phase.returned (write_reply new_content r), record s { bash = after })
  advance (Phase.returned reply) s = (Phase.returned reply, s)

  -- the next step of call `t`
  unfoldable pub step : ℕ → Shared B → Shared B
  unfolding map_bashkit_error count_occurrences replace_first
  step t s =
      let (phase, session) = advance (s.phase t) s.session in
      record { session = session; phase = moved s.phase t phase }
