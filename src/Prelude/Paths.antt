-- ===== src/Prelude/Paths.antt =====
-- Paths of the host's file system.
use mathlib.Core.Path.{◌≡◌}
use mathlib.Core.List.{[], ◌∷◌, ◌++◌}
use Prim.Native.Nat.{ℕ}
use condukt.Prelude.Strings.{Str}

abbrev pub slash : ℕ
slash = 47

-- The path is that of a directory or lies below it; the directory's may end with a slash. Links and
-- the parts `.` and `..` are taken to be resolved.
pub data IsWithin (path : Str) : Str → Type 0 where
  itself : IsWithin path path
  below : (rest : Str) → IsWithin path (path ++ slash ∷ rest)
  itself_slashed : (host : Str) → path ≡ host ++ slash ∷ [] → IsWithin path host
  below_slashed : (start rest : Str) → path ≡ start ++ slash ∷ [] → IsWithin path (path ++ rest)
