-- ===== src/Bashkit/Tests.antt =====
-- A session over a single file, and the theorems at concrete texts.
use condukt.Prelude.{
  inl, Any, List, ℕ, zero, suc, ap, sym, Str, Result, ◌≡◌, ◌↔◌, refl, true, false, [], ◌∷◌, none,
  some, codes, arith, ok, err,
}
use condukt.Prelude.Bytes.{Bytes}
use condukt.Bashkit.Pattern.{glob_match}
use condukt.Bashkit.Pattern.Language.{Accepts, glob_match_iff}
use condukt.Bashkit.Grep.{GrepMatch, parse_grep}
use condukt.Bashkit.Grep.Output.{output_of, IsShown, parse_grep-output_of}
use condukt.Bashkit.Session.{MountMode, Backend, Session, exec, glob, edit_file}
use condukt.Bashkit.Reply.{
  Reply, answered, refused, EditResult, timeout, map_bashkit_error, enoent, eacces,
}
use condukt.Bashkit.Edit.{count_occurrences, replace_first}
use condukt.Bashkit.Session.Interleaved.{EditCall, Call}
use condukt.Bashkit.Session.Interleaved.Race.{
  Contended, succeeded, interleaved, interleaved_loses_first,
}
use condukt.Bashkit.Session.Opening.{MountSpec, Builder, new_session}
use condukt.Prelude.Paths.{IsWithin, below}
use condukt.Bashkit.Session.Opening.Mounts.{Confines, OpensTree, new_session_opens}
use condukt.Bashkit.Script.{grep_script}
use condukt.Bashkit.Session.Editing.{Edits, edit_file-Edits}
use condukt.Bashkit.Script.Words.{words, words-grep_script}

-- The state is the content of the only file; a command prints it, and a timed one never ends.
abbrev backend : Backend Bytes
backend = record {
  exec = λ command file. (ok (record { stdout = file; stderr = []; exit_code = 0 }), file);
  exec_within = λ ms command file. (none, file);
  read_file = λ path file. ok file;
  write_file = λ path content file. (ok tt, content);
  mkdir = λ path file. file;
  parent = λ path. none;
  file_name = λ path. none;
  open_real = λ path mode. true;
  mount = λ host vfs mode file. (ok tt, file);
  unmount = λ vfs file. (err (codes "no mount"), file);
  from_utf8_lossy = λ bytes. bytes;
  as_bytes = λ text. text;
}

abbrev session : Session Bytes
session = record { bash = codes "one two"; poisoned = false }

replaces_the_word : edit_file backend session (codes "f") (codes "two") (codes "three") ≡ (
  answered (record { occurrences = 1; content = codes "one three" }),
  record { bash = codes "one three"; poisoned = false },
)
unfolding edit_file
replaces_the_word = refl

keeps_the_file :
    edit_file backend session (codes "f") (codes "o") (codes "x")
    ≡ (answered (record { occurrences = 2; content = codes "one two" }), session)
unfolding edit_file
keeps_the_file = refl

times_out : exec backend session (codes "sleep 9") (some 1) ≡ (refused timeout, session)
unfolding exec
times_out = refl

unsafe_glob : glob backend session (codes "*;ls") none ≡ (answered [], session)
unfolding glob
unsafe_glob = refl

error_atoms :
    (map_bashkit_error (codes "No such file") ≡ enoent)
    × (map_bashkit_error (codes "access denied") ≡ eacces)
unfolding map_bashkit_error
error_atoms = (refl, refl)

edit_file-Edits_example :
    (outcome : Reply EditResult × Bytes) × (edit_file backend session
        (codes "f")
        (codes "two")
        (codes "three")
      ≡ (outcome.0, record { bash = outcome.1; poisoned = false }))
    × Edits backend
        (codes "f")
        (codes "two")
        (codes "three")
        (codes "one two")
        (codes "one two")
        outcome
edit_file-Edits_example =
    edit_file-Edits backend session (codes "f") (codes "two") (codes "three") (codes "one two") refl
      refl

words-grep_script_example :
    words 4 (grep_script (codes "a'b") (codes "/$HOME") false)
    ≡ codes "grep" ∷ codes "-rnHE-i" ∷ codes "a'b" ∷ codes "/$HOME" ∷ []
words-grep_script_example = words-grep_script (codes "a'b") (codes "/$HOME") false

glob_match_iff_example :
    (glob_match (codes "*.r?") (codes "lib.rs") ≡ true) ↔ Accepts (codes "*.r?") (codes "lib.rs")
glob_match_iff_example = glob_match_iff (codes "*.r?") (codes "lib.rs")

accepts_a_suffix : glob_match (codes "*.r?") (codes "lib.rs") ≡ true
unfolding glob_match
accepts_a_suffix = refl

abbrev shown : GrepMatch
shown = record { path = codes "/a.txt"; line_number = 12; line = codes "x: y" }

shown-IsShown : IsShown shown
shown-IsShown = record {
  no_colon = (
    λ e. omega (arith, e),
    (
      λ e. omega (arith, e),
      (
        λ e. omega (arith, e),
        (λ e. omega (arith, e), (λ e. omega (arith, e), (λ e. omega (arith, e), tt))),
      ),
    ),
  );
  one_line_path = (
    λ e. omega (arith, e),
    (
      λ e. omega (arith, e),
      (
        λ e. omega (arith, e),
        (λ e. omega (arith, e), (λ e. omega (arith, e), (λ e. omega (arith, e), tt))),
      ),
    ),
  );
  one_line = (
    λ e. omega (arith, e),
    (λ e. omega (arith, e), (λ e. omega (arith, e), (λ e. omega (arith, e), tt))),
  );
  no_carriage_return = refl;
  in_range = omega arith;
}

parse_grep-output_of_example : parse_grep (output_of (shown ∷ [])) ≡ shown ∷ []
parse_grep-output_of_example = parse_grep-output_of (shown ∷ []) (shown-IsShown, tt)

-- Two calls that edit the one file at different places.
abbrev one_edit : EditCall
one_edit = record { path = codes "f"; old_text = codes "one"; new_text = codes "uno" }

abbrev two_edit : EditCall
two_edit = record { path = codes "f"; old_text = codes "two"; new_text = codes "dos" }

abbrev calls : ℕ → Call
calls zero = Call.edit_call one_edit
calls (suc t) = Call.edit_call two_edit

reads_back :
    (path : Str) (bytes before after : Bytes)
    → backend.write_file path bytes before ≡ (ok tt, after)
    → backend.read_file path after ≡ ok bytes
reads_back path bytes before after h = ap (λ (w : Result Str (Unit {0}) × Bytes). ok w.1) (sym h)

both_contend : Contended backend one_edit two_edit session (codes "one two")
unfolding count_occurrences
both_contend = record {
  same_path = refl;
  bytes = codes "one two";
  sound = refl;
  readable = refl;
  decoded = refl;
  once = refl;
  once_too = refl;
  between = replace_first (codes "one two") (codes "one") (codes "uno");
  after = replace_first (codes "one two") (codes "two") (codes "dos");
  writes = refl;
  writes_too = refl;
}

interleaved_loses_first_example :
    ((interleaved backend calls 0 1 session).phase 0 ≡ succeeded (codes "one two") one_edit)
    × ((interleaved backend calls 0 1 session).phase 1 ≡ succeeded (codes "one two") two_edit)
    × (backend.read_file (codes "f") (interleaved backend calls 0 1 session).session.bash
        ≡ ok (replace_first (codes "one two") (codes "two") (codes "dos")))
interleaved_loses_first_example =
    interleaved_loses_first backend calls 0 1 session (codes "one two") one_edit two_edit
      (λ e. omega (arith, e)) refl refl reads_back both_contend

-- A builder that keeps the trees that it opens for writing.
abbrev builder : Builder (List Str) (List Str)
builder = record {
  builder = [];
  mount_real_readonly_at = λ path vfs u. u;
  mount_real_readwrite_at = λ path vfs u. path ∷ u;
  build = λ u. u;
}

abbrev builder_law : Confines builder
builder_law = record {
  IsWritable = λ u host. Any (λ path. IsWithin path host) u;
  IsOpened = λ u host. Any (λ path. IsWithin path host) u;
  builder_opens_nothing = λ host h. h;
  readonly_opens_nothing = λ path vfs host u h. h;
  readwrite_opens_its_tree = λ path vfs host u h. h;
  build_opens_nothing = λ host u h. h;
}

abbrev mounts : List MountSpec
mounts =
    record { host_path = codes "/docs"; vfs_path = codes "/d"; mode = MountMode.readonly }
    ∷ record { host_path = codes "/work"; vfs_path = codes "/w"; mode = MountMode.readwrite }
    ∷ []

file_opened : Any (λ path. IsWithin path (codes "/work/a")) (new_session builder mounts).bash
unfolding new_session
file_opened = inl (below (codes "a"))

new_session_opens_example : Any (OpensTree (codes "/work/a")) mounts
new_session_opens_example =
    new_session_opens builder builder_law (codes "/work/a") mounts file_opened
