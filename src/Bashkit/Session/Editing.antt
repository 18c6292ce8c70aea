-- ===== src/Bashkit/Session/Editing.antt =====
-- What an edit does to the file.
use condukt.Prelude.{
  ℕ, ◌≡◌, ◌≢◌, refl, false, Str, ◌==◌, ==_iff, arith, Bool-cases, inl, inr, Result, ok, err,
}
use condukt.Prelude.Bytes.{Bytes}
use condukt.Bashkit.Edit.{count_occurrences, replace_first}
use condukt.Bashkit.Edit.Occurrences.{
  IsEdit, IsCount, replace_first-IsEdit, count_occurrences-IsCount,
}
use condukt.Bashkit.Session.{Backend, Session, edited, edit_content, edit_file}
use condukt.Bashkit.Reply.{Reply, refused, answered, EditResult, map_bashkit_error}

-- What `edit_file` may do to a readable file with this content, on an interpreter in state `bash`.
pub data Edits {B : Type 0} (b : Backend B) (path old new content : Str) (bash : B)
    : Reply EditResult × B → Type 0 where
  -- other than one occurrence, found from the left without overlap: the count is reported, and nothing is written
  leaves :
      (n : ℕ)
      → n ≢ 1
      → IsCount old content n
      → Edits b path old new content bash
          (answered (record { occurrences = n; content = content }), bash)
  -- one occurrence, and the content with it replaced is written
  writes :
      (new_content : Str) (after : B)
      → IsEdit old new content new_content
      → b.write_file path (b.as_bytes new_content) bash ≡ (ok tt, after)
      → Edits b path old new content bash
          (answered (record { occurrences = 1; content = new_content }), after)
  -- one occurrence, and the write fails
  fails :
      (new_content e : Str) (after : B)
      → IsEdit old new content new_content
      → b.write_file path (b.as_bytes new_content) bash ≡ (err e, after)
      → Edits b path old new content bash (refused (map_bashkit_error e), after)

module _ {B : Type 0} (b : Backend B) (path old new content : Str) (bash : B) where
  edited-Edits :
      (new_content : Str) (w : Result Str (Unit {0}) × B)
      → IsEdit old new content new_content
      → b.write_file path (b.as_bytes new_content) bash ≡ w
      → Edits b path old new content bash (edited b new_content w)
  edited-Edits new_content (ok tt, after) i e = writes new_content after i e
  edited-Edits new_content (err t, after) i e = fails new_content t after i e

  edit_content-Edits : Edits b path old new content bash (edit_content b path old new content bash)
  edit_content-Edits = elim (Bool-cases (count_occurrences content old == 1)) [
    | inl e ↦ rw e (
        edited-Edits (replace_first content old new) _
          (replace_first-IsEdit content old new ((==_iff (count_occurrences content old) 1).0 e))
          refl)
    | inr e ↦ rw e (
        leaves (count_occurrences content old)
          (λ q. ground (arith, ==_iff (count_occurrences content old) 1))
          (count_occurrences-IsCount content old))
  ]

-- On a session whose lock is sound and a file that can be read: occurrences of the old text are found
-- from the left, each behind the last. If their number is not one, it is answered with the content, and
-- nothing is written. If it is one, the content with this first occurrence replaced is written and
-- answered; no occurrence lies behind it, though others may overlap it. A failed write gives its error
-- atom. An empty old text counts as none.
pub edit_file-Edits :
    {B : Type 0} (b : Backend B) (s : Session B) (path old new : Str) (bytes : Bytes)
    → s.poisoned ≡ false
    → b.read_file path s.bash ≡ ok bytes
    → (outcome : Reply EditResult × B) × (edit_file b s path old new
        ≡ (outcome.0, record { bash = outcome.1; poisoned = false }))
      × Edits b path old new (b.from_utf8_lossy bytes) s.bash outcome
unfolding edit_file
edit_file-Edits b s path old new bytes sound read = (
  edit_content b path old new (b.from_utf8_lossy bytes) s.bash,
  rw (sound, read) refl,
  edit_content-Edits b path old new (b.from_utf8_lossy bytes) s.bash,
)
