-- ===== src/Glob/Documented.antt =====
-- `match_tokens` against the documented syntax, in which `*` takes a nonempty text with no dot and
-- may end anywhere, and `**` takes one or more labels. `Matches Anywhere` differs in that it lets `**`
-- take any nonempty text.
use condukt.Prelude.{
  ℕ, ◌≡◌, ◌≢◌, refl, sym, subst, ◌∙◌, Bool, true, false, List, [], ◌∷◌, ◌++◌, Str, arith,
  append-nil, append_assoc,
}
use condukt.Glob.{Token, literal, star, double_star, dot, match_tokens}
use condukt.Glob.Matching
use condukt.Glob.Matching.{IsLabel, Matches, AtBoundary, Anywhere}
use condukt.Glob.Relation.{match_tokens_iff}

-- what may follow a star: the end of the pattern, or a literal that begins with a dot
abbrev pub FollowsStar : List Token → Type 0
FollowsStar [] = Unit
FollowsStar (literal [] ∷ ts) = ⊥
FollowsStar (literal (c ∷ l) ∷ ts) = c ≡ dot
FollowsStar (star ∷ ts) = ⊥
FollowsStar (double_star ∷ ts) = ⊥

-- every star stands for a whole label up to its end
abbrev pub IsAligned : List Token → Type 0
IsAligned [] = Unit
IsAligned (literal l ∷ ts) = IsAligned ts
IsAligned (star ∷ ts) = FollowsStar ts × IsAligned ts
IsAligned (double_star ∷ ts) = IsAligned ts

boundary_of_next :
    {ts : List Token} {s : Str} → FollowsStar ts → Matches Anywhere ts s → AtBoundary s
boundary_of_next f Matching.done = tt
boundary_of_next f (Matching.text [] e m) = absurd f
boundary_of_next {s = []} f (Matching.text (c ∷ l) e m) = tt
boundary_of_next {s = d ∷ s} f (Matching.text (c ∷ l) e m) = ground arith
boundary_of_next f (Matching.label l i e b m) = absurd f
boundary_of_next f (Matching.labels l n e m) = absurd f

strengthen :
    {ts : List Token} {s : Str} → IsAligned ts → Matches Anywhere ts s → Matches AtBoundary ts s
strengthen a Matching.done = Matching.done
strengthen a (Matching.text l e m) = Matching.text l e (strengthen a m)
strengthen a (Matching.label l i e b m) =
    Matching.label l i e (boundary_of_next a.0 m) (strengthen a.1 m)
strengthen a (Matching.labels l n e m) = Matching.labels l n e (strengthen a m)

-- One or more labels with a dot between them.
pub data IsLabels : Str → Type 0 where
  one : {l : Str} → IsLabel l → IsLabels l
  and_more : {l r : Str} → IsLabel l → IsLabels r → IsLabels (l ++ dot ∷ r)

-- The documented syntax: `*` is a label, or a part of one, and `**` is one or more labels.
pub data Documents : List Token → Str → Type 0 where
  done : Documents [] []
  text :
      {ts : List Token} {s : Str} (l : Str) → Documents ts s → Documents (literal l ∷ ts) (l ++ s)
  label :
      {ts : List Token} {s : Str} (l : Str)
      → IsLabel l
      → Documents ts s
      → Documents (star ∷ ts) (l ++ s)
  labels :
      {ts : List Token} {s : Str} (l : Str)
      → IsLabels l
      → Documents ts s
      → Documents (double_star ∷ ts) (l ++ s)

abbrev pub HasNoDoubleStar : List Token → Type 0
HasNoDoubleStar [] = Unit
HasNoDoubleStar (literal l ∷ ts) = HasNoDoubleStar ts
HasNoDoubleStar (star ∷ ts) = HasNoDoubleStar ts
HasNoDoubleStar (double_star ∷ ts) = ⊥

IsLabels-nonempty : {l : Str} → IsLabels l → l ≢ []
IsLabels-nonempty (one i) = i.0
IsLabels-nonempty (and_more {l = []} i rest) = absurd (i.0 refl)
IsLabels-nonempty (and_more {l = c ∷ l} i rest) = λ e. absurd (ground (arith, e))

no_leading_dot : (l s : Str) {r : Str} → IsLabel l → l ++ s ≢ dot ∷ r
no_leading_dot [] s i e = i.0 refl
no_leading_dot (c ∷ l) s i e = i.1.0 (ground (arith, e))

-- labels do not begin with a dot, and so neither does what `**` begins
IsLabels-no_leading_dot : {l r : Str} (s : Str) → IsLabels l → l ++ s ≢ dot ∷ r
IsLabels-no_leading_dot s (one {l} i) e = no_leading_dot l s i e
IsLabels-no_leading_dot s (and_more {l} {r} i rest) e =
    no_leading_dot l ((dot ∷ r) ++ s) i (sym (append_assoc l (dot ∷ r) s) ∙ e)

not_documented : {ts : List Token} {u r : Str} → Documents (double_star ∷ ts) u → u ≢ dot ∷ r
not_documented (labels {s = s} l i d) e = IsLabels-no_leading_dot s i e

Matches-Documents : {ts : List Token} {s : Str} → Documents ts s → Matches Anywhere ts s
Matches-Documents done = Matching.done
Matches-Documents (text l d) = Matching.text l refl (Matches-Documents d)
Matches-Documents (label l i d) = Matching.label l i refl tt (Matches-Documents d)
Matches-Documents (labels l i d) =
    Matching.labels l (IsLabels-nonempty i) refl (Matches-Documents d)

Documents-Matches :
    {ts : List Token} {s : Str} → HasNoDoubleStar ts → Matches AtBoundary ts s → Documents ts s
Documents-Matches n Matching.done = done
Documents-Matches {ts = literal k ∷ ts} n (Matching.text l e m) =
    subst (Documents (literal k ∷ ts)) (sym e) (text l (Documents-Matches n m))
Documents-Matches {ts = star ∷ ts} n (Matching.label l i e b m) =
    subst (Documents (star ∷ ts)) (sym e) (label l i (Documents-Matches n m))
Documents-Matches n (Matching.labels l i e m) = absurd n

-- Where every star is followed by the end or by a literal that begins with a dot, the matcher accepts
-- every host that the documented syntax does. Without `**` it accepts no other host, whatever the
-- tokens. With `**` it does: where `**` stands in front of a literal, the matcher accepts the literal
-- behind a dot, and the documented syntax does not, since a dot is no label.
pub match_tokens_documented :
    (ts : List Token) (s suffix : Str)
    → (IsAligned ts → Documents ts s → match_tokens ts s ≡ true)
      × (HasNoDoubleStar ts → match_tokens ts s ≡ true → Documents ts s)
      × (match_tokens (double_star ∷ literal suffix ∷ []) (dot ∷ suffix) ≡ true)
      × ¬ Documents (double_star ∷ literal suffix ∷ []) (dot ∷ suffix)
match_tokens_documented ts s suffix = (
  λ a d. (match_tokens_iff ts s).1 (strengthen a (Matches-Documents d)),
  λ n h. Documents-Matches n ((match_tokens_iff ts s).0 h),
  (match_tokens_iff (double_star ∷ literal suffix ∷ []) (dot ∷ suffix)).1 (
      Matching.labels (dot ∷ []) (λ e. absurd (ground (arith, e))) refl
        (Matching.text suffix (sym (append-nil suffix)) Matching.done)),
  λ d. not_documented d refl,
)

first_char : {c : ℕ} {v : Str} (u : Str) → u ≡ c ∷ v → AtBoundary u → c ≡ dot
first_char [] e b = absurd (ground arith)
first_char (d ∷ u) e b = ground arith

not_aligned :
    (pre ts : List Token) {s : Str} (c : ℕ) (l : Str)
    → c ≢ dot
    → ¬ Matches AtBoundary (pre ++ star ∷ literal (c ∷ l) ∷ ts) s
not_aligned [] ts c l n (Matching.label k i e b (Matching.text _ e' m)) = n (first_char _ e' b)
not_aligned (literal k ∷ pre) ts c l n (Matching.text _ e m) = not_aligned pre ts c l n m
not_aligned (star ∷ pre) ts c l n (Matching.label k i e b m) = not_aligned pre ts c l n m
not_aligned (double_star ∷ pre) ts c l n (Matching.labels k i e m) = not_aligned pre ts c l n m

false_of_not : (b : Bool) → ¬ (b ≡ true) → b ≡ false
false_of_not true h = absurd (h refl)
false_of_not false h = refl

-- Where a star is followed by a literal that does not begin with a dot, as in `api-*-prod.com`,
-- the matcher accepts no host at all, although the pattern `*` with that literal behind it matches
-- a one-character label continued by the literal, as the syntax is documented.
pub match_tokens_star_inside_label :
    (pre ts : List Token) (s : Str) (x c : ℕ) (l : Str)
    → c ≢ dot
    → x ≢ dot
    → (match_tokens (pre ++ star ∷ literal (c ∷ l) ∷ ts) s ≡ false)
      × Matches Anywhere (star ∷ literal (c ∷ l) ∷ []) (x ∷ c ∷ l)
match_tokens_star_inside_label pre ts s x c l n m = (
  false_of_not _ (λ h. not_aligned pre ts c l n ((match_tokens_iff _ s).0 h)),
  Matching.label (x ∷ []) (λ p. cc, (m, tt)) refl tt
      (Matching.text (c ∷ l) (sym (append-nil (c ∷ l))) Matching.done),
)
