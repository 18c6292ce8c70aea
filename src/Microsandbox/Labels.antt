-- ===== src/Microsandbox/Labels.antt =====
-- The labels of errors.
use condukt.Prelude.{
  ◌≡◌, refl, subst, Bool, false, ◌||◌, List, [], ◌∷◌, Str, codes, if◌then◌else◌, arith,
}
use condukt.Bashkit.Reply.{contains}
use condukt.Bashkit.Reply.Errors.{FirstEntry, classify, classify-FirstEntry}
use condukt.Microsandbox.{
  Backend, not_found, permission_denied, already_exists, is_a_directory, other_kind,
  MicrosandboxError, exec_timeout, io, sandbox_fs, other, label_for_message, label_for_error,
}

-- the phrases in the order in which they are looked for
abbrev pub label_phrases : List (List Str × Str)
label_phrases =
    ((codes "no such file" ∷ codes "not found" ∷ []), codes "enoent")
    ∷ ((codes "permission denied" ∷ []), codes "eacces")
    ∷ ((codes "already exists" ∷ []), codes "eexist")
    ∷ ((codes "is a directory" ∷ []), codes "eisdir")
    ∷ []

module _ {H W : Type 0} (b : Backend H W) where
  -- A message's label is that of the first phrase it holds in lower case, or the message itself.
  abbrev pub IsMessageLabel : Str → Str → Type 0
  IsMessageLabel message label = FirstEntry (b.to_lowercase message) message label_phrases label

  abbrev pub IsLabel : MicrosandboxError → Str → Type 0
  IsLabel exec_timeout label = label ≡ codes "timeout"
  IsLabel (io not_found text) label = label ≡ codes "enoent"
  IsLabel (io permission_denied text) label = label ≡ codes "eacces"
  IsLabel (io already_exists text) label = label ≡ codes "eexist"
  IsLabel (io is_a_directory text) label = label ≡ codes "eisdir"
  IsLabel (io other_kind text) label = label ≡ text
  IsLabel (sandbox_fs message) label = IsMessageLabel message label
  IsLabel (other text) label = IsMessageLabel text label

  label_for_message-IsMessageLabel :
      (message : Str) → IsMessageLabel message (label_for_message b message)
  label_for_message-IsMessageLabel message =
      subst (FirstEntry (b.to_lowercase message) message label_phrases) by_table
        (classify-FirstEntry (b.to_lowercase message) message label_phrases)
    where
      by_tests :
          (p q r s t : Bool) (v w x y z : Str)
          → (if p || (q || false)
              then v
              else if r || false
              then w
              else if s || false
              then x
              else if t || false
              then y
              else z)
            ≡ (if p || q then v else if r then w else if s then x else if t then y else z)
      by_tests p q r s t v w x y z = ground arith

      by_table :
          classify (b.to_lowercase message) message label_phrases ≡ label_for_message b message
      by_table =
          unfold label_for_message in
          by_tests (contains (b.to_lowercase message) (codes "no such file"))
            (contains (b.to_lowercase message) (codes "not found"))
            (contains (b.to_lowercase message) (codes "permission denied"))
            (contains (b.to_lowercase message) (codes "already exists"))
            (contains (b.to_lowercase message) (codes "is a directory")) (codes "enoent")
            (codes "eacces") (codes "eexist") (codes "eisdir") message

  -- Every error has the label of its kind: `timeout`, the POSIX name of an I/O kind that has one, and
  -- otherwise that of the first phrase of the table that stands in its lower-cased message, with the
  -- message itself where none does.
  pub label_for_error-IsLabel : (e : MicrosandboxError) → IsLabel e (label_for_error b e)
  unfolding label_for_error
  label_for_error-IsLabel exec_timeout = refl
  label_for_error-IsLabel (io not_found text) = refl
  label_for_error-IsLabel (io permission_denied text) = refl
  label_for_error-IsLabel (io already_exists text) = refl
  label_for_error-IsLabel (io is_a_directory text) = refl
  label_for_error-IsLabel (io other_kind text) = refl
  label_for_error-IsLabel (sandbox_fs message) = label_for_message-IsMessageLabel message
  label_for_error-IsLabel (other text) = label_for_message-IsMessageLabel text
