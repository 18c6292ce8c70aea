-- ===== src/Bashkit/Script.antt =====
-- The commands that `glob` and `grep` build.
pub mod Words
use condukt.Prelude.{
  ℕ, suc, Bool, true, false, ◌||◌, List, [], ◌∷◌, ◌++◌, Option, none, some, Str, codes, ◌==◌,
  if◌then◌else◌, is_empty, not, to_ascii_lowercase,
}
use condukt.Bashkit.Text.{escape_single_quotes}

abbrev pub cd_prefix : Option Str → Str
cd_prefix none = []
cd_prefix (some cwd) = codes "cd '" ++ (escape_single_quotes cwd ++ codes "' && ")

unfoldable pub glob_script : Str → Option Str → Str
unfolding escape_single_quotes
glob_script pattern cwd =
    cd_prefix cwd ++ (codes "shopt -s nullglob 2>/dev/null; printf '%s\\n' " ++ pattern)

unfoldable pub grep_script : Str → Str → Bool → Str
unfolding escape_single_quotes
grep_script pattern root case_sensitive =
    codes "grep -rnHE"
    ++ ((if case_sensitive then [] else codes "-i")
        ++ (codes " '"
            ++ (escape_single_quotes pattern
                ++ (codes "' '" ++ (escape_single_quotes root ++ codes "' || true")))))
