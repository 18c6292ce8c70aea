-- ===== src/Glob/Tests.antt =====
-- Runs of the matcher, and its theorems at concrete hosts.
use condukt.Prelude.{◌≡◌, ◌≢◌, refl, ◌↔◌, true, false, List, [], ◌∷◌, ◌++◌, Str, codes, arith}
use condukt.Glob.{Token, literal, star, double_star, compile, match_tokens, matches_one}
use condukt.Glob.Matching.{Matches, AtBoundary, Anywhere, IsLabel}
use condukt.Glob.Relation.{match_tokens_iff}
use condukt.Glob.Documented.{
  IsAligned, Documents, HasNoDoubleStar, match_tokens_documented, match_tokens_star_inside_label,
}
use condukt.Glob.Compile.Loop.{IsNormal, render}
use condukt.Glob.Compile.{compile_iff}
use condukt.Glob.Shapes.{matches_one_shapes}

compile_stars :
    compile (codes "a*.b***")
    ≡ literal (codes "a") ∷ star ∷ literal (codes ".b") ∷ double_star ∷ star ∷ []
unfolding compile
compile_stars = refl

one_label : matches_one (codes "api.openai.com") (codes "*.OpenAI.com") ≡ true
unfolding matches_one
one_label = refl

two_labels : matches_one (codes "a.b.googleapis.com") (codes "**.googleapis.com") ≡ true
unfolding matches_one
two_labels = refl

star_is_one_label : matches_one (codes "a.b.openai.com") (codes "*.openai.com") ≡ false
unfolding matches_one
star_is_one_label = refl

-- A star inside a label: no host is accepted.
star_inside_label : matches_one (codes "api-eu-prod.dev") (codes "api-*-prod.dev") ≡ false
unfolding matches_one
star_inside_label = refl

abbrev dot_com : List Token
dot_com = star ∷ literal (codes ".com") ∷ []

match_tokens_iff_example :
    (match_tokens dot_com (codes "a.com") ≡ true) ↔ Matches AtBoundary dot_com (codes "a.com")
match_tokens_iff_example = match_tokens_iff dot_com (codes "a.com")

match_tokens_documented_example :
    (IsAligned dot_com
      → Documents dot_com (codes "a.com")
      → match_tokens dot_com (codes "a.com") ≡ true)
    × (HasNoDoubleStar dot_com
        → match_tokens dot_com (codes "a.com") ≡ true
        → Documents dot_com (codes "a.com"))
    × (match_tokens
          (double_star ∷ literal (codes ".googleapis.com") ∷ [])
          (codes "..googleapis.com")
        ≡ true)
    × ¬ Documents (double_star ∷ literal (codes ".googleapis.com") ∷ []) (codes "..googleapis.com")
match_tokens_documented_example =
    match_tokens_documented dot_com (codes "a.com") (codes ".googleapis.com")

match_tokens_star_inside_label_example :
    (match_tokens
        (literal (codes "api-") ∷ star ∷ literal (codes "-prod") ∷ [])
        (codes "api-e-prod")
      ≡ false)
    × Matches Anywhere (star ∷ literal (codes "-prod") ∷ []) (codes "e-prod")
match_tokens_star_inside_label_example =
    match_tokens_star_inside_label (literal (codes "api-") ∷ []) [] (codes "api-e-prod") b'e' b'-'
      (codes "prod") (omega arith) (omega arith)

compile_iff_example : (compile (codes "a*") ≡ literal (codes "a") ∷ star ∷ []) ↔ (
    IsNormal (literal (codes "a") ∷ star ∷ [])
    × (render (literal (codes "a") ∷ star ∷ []) ≡ codes "a*"))
compile_iff_example = compile_iff (codes "a*") (literal (codes "a") ∷ star ∷ [])

matches_one_shapes_example :
    ((matches_one (codes "api.x.io") (codes "X.io") ≡ true) ↔ (codes "api.x.io" ≡ codes "x.io"))
    × ((matches_one (codes "api.x.io") (codes "*.X.io") ≡ true)
        ↔ ((k : Str) × IsLabel k × (codes "api.x.io" ≡ k ++ codes ".x.io")))
    × ((matches_one (codes "api.x.io") (codes "**.X.io") ≡ true)
        ↔ ((k : Str) × (k ≢ []) × (codes "api.x.io" ≡ k ++ codes ".x.io")))
matches_one_shapes_example = matches_one_shapes (codes "api.x.io") (codes "X.io") (omega arith)
