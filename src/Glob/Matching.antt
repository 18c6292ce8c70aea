-- ===== src/Glob/Matching.antt =====
-- What it means for a text to match tokens, with no search order in it. `Ends` says where the
-- text of a star may end.
use condukt.Prelude.{◌≡◌, ◌≢◌, List, [], ◌∷◌, ◌++◌, Str, All}
use condukt.Glob.{Token, literal, star, double_star, dot}

-- a part of a host with no dot in it
abbrev pub IsLabel : Str → Type 0
IsLabel l = (l ≢ []) × All (λ c. c ≢ dot) l

-- the host ends here, or a dot follows
abbrev pub AtBoundary : Str → Type 0
AtBoundary [] = Unit
AtBoundary (c ∷ s) = c ≡ dot

abbrev pub Anywhere : Str → Type 0
Anywhere s = Unit

pub data Matches (Ends : Str → Type 0) : List Token → Str → Type 0 where
  done : Matches Ends [] []
  text :
      {ts : List Token} {s u : Str} (l : Str)
      → u ≡ l ++ s
      → Matches Ends ts s
      → Matches Ends (literal l ∷ ts) u
  label :
      {ts : List Token} {s u : Str} (l : Str)
      → IsLabel l
      → u ≡ l ++ s
      → Ends s
      → Matches Ends ts s
      → Matches Ends (star ∷ ts) u
  labels :
      {ts : List Token} {s u : Str} (l : Str)
      → l ≢ []
      → u ≡ l ++ s
      → Matches Ends ts s
      → Matches Ends (double_star ∷ ts) u
