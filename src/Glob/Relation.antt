-- ===== src/Glob/Relation.antt =====
-- `match_tokens` decides `Matches AtBoundary`.
use condukt.Prelude.{
  ℕ, ◌+◌, ◌<◌, ◌≡◌, ◌≢◌, refl, sym, ap, ◌∙◌, ◌↔◌, Bool, true, List, [], ◌∷◌, ◌++◌, Option, none,
  some, Str, All, arith, ◌==◌, ==_iff, Bool-cases, inl, inr, strip_prefix, append-nil,
  strip_prefix-eq_some, strip_prefix-append, Option-cases,
}
use condukt.Glob.{
  Token, literal, star, double_star, dot, star_loop, match_star, double_star_loop,
  match_double_star, match_tokens, len_utf8,
}
use condukt.Glob.Matching.{Matches, done, text, label, labels, IsLabel, AtBoundary}

record StarSplit (next : Str → Bool) (input : Str) : Type 0 where
  label_part : Str
  rest : Str
  is_label : IsLabel label_part
  whole : input ≡ label_part ++ rest
  boundary : AtBoundary rest
  onward : next rest ≡ true

module _ (next : Str → Bool) where
  star_loop-some :
      (idx : ℕ) (s : Str)
      → star_loop next idx s ≡ some true
      → (l r : Str) × All (λ c. c ≢ dot) l
        × (s ≡ l ++ r)
        × AtBoundary r
        × (next r ≡ true)
        × (idx ≡ 0 → l ≢ [])
  unfolding star_loop
  star_loop-some idx [] h = cc
  star_loop-some idx (c ∷ s) h = elim (Bool-cases (c == dot)) [
    | inl e ↦ ([], c ∷ s, tt, refl, (==_iff c dot).0 e, ground arith, ground arith)
    | inr e ↦
        let (l, r, free, whole, edge, onward, _) =
          star_loop-some (idx + len_utf8 c) s (ground arith) in
        (c ∷ l, r, (ground arith, free), ap (λ t. c ∷ t) whole, edge, onward, λ _ p. cc)
  ]

  star_loop-none : (idx : ℕ) (s : Str) → star_loop next idx s ≡ none → All (λ c. c ≢ dot) s
  unfolding star_loop
  star_loop-none idx [] h = tt
  star_loop-none idx (c ∷ s) h = (ground arith, star_loop-none (idx + len_utf8 c) s (ground arith))

  star_loop-no_dot : (idx : ℕ) (l : Str) → All (λ c. c ≢ dot) l → star_loop next idx l ≡ none
  unfolding star_loop
  star_loop-no_dot idx [] h = refl
  star_loop-no_dot idx (c ∷ l) h = ground (arith, star_loop-no_dot (idx + len_utf8 c) l h.1)

  star_loop-dot :
      (idx : ℕ) (l r : Str)
      → All (λ c. c ≢ dot) l
      → 0 < idx
      → star_loop next idx (l ++ dot ∷ r) ≡ some (next (dot ∷ r))
  unfolding star_loop
  star_loop-dot idx [] r h p = ground arith
  star_loop-dot idx (c ∷ l) r h p = ground (arith, star_loop-dot (idx + len_utf8 c) l r h.1)

  -- The verdict of the star from its loop's result.
  star_found :
      (input : Str) (o : Option Bool)
      → star_loop next 0 input ≡ o
      → o ≡ some true
      → StarSplit next input
  star_found input o e p =
      let (l, r, free, whole, edge, onward, nonempty) = star_loop-some 0 input (e ∙ p) in
      record {
        label_part = l;
        rest = r;
        is_label = (nonempty refl, free);
        whole = whole;
        boundary = edge;
        onward = onward;
      }

  match_star_sound : (input : Str) → match_star next input ≡ true → StarSplit next input
  unfolding match_star
  match_star_sound [] h = cc
  match_star_sound (c ∷ s) h = elim (Option-cases (star_loop next 0 (c ∷ s))) [
    | inl e ↦ record {
      label_part = c ∷ s;
      rest = [];
      is_label = (λ p. cc, star_loop-none 0 (c ∷ s) e);
      whole = ap (λ t. c ∷ t) (sym (append-nil s));
      boundary = tt;
      onward = ground arith;
    }
    | inr (b, e) ↦ star_found (c ∷ s) (some b) e (ground arith)
  ]

  match_star_complete :
      (l r : Str) → IsLabel l → AtBoundary r → next r ≡ true → match_star next (l ++ r) ≡ true
  unfolding match_star
  match_star_complete [] r i b h = absurd (i.0 refl)
  match_star_complete (c ∷ l) [] i b h =
      rw append-nil (ground (arith, star_loop-no_dot 0 (c ∷ l) i.1))
  match_star_complete (c ∷ l) (d ∷ r) i b h =
      ground (arith, star_loop-dot (0 + len_utf8 c) l r i.1.1)

  double_star_loop_sound :
      (s : Str) → double_star_loop next s ≡ true → (l r : Str) × (s ≡ l ++ r) × (next r ≡ true)
  unfolding double_star_loop
  double_star_loop_sound [] h = ([], [], refl, h)
  double_star_loop_sound (c ∷ s) h = elim (Bool-cases (next (c ∷ s))) [
    | inl e ↦ ([], c ∷ s, refl, e)
    | inr e ↦
        let (l, r, whole, onward) = double_star_loop_sound s (ground arith) in
        (c ∷ l, r, ap (λ t. c ∷ t) whole, onward)
  ]

  double_star_loop_complete : (l r : Str) → next r ≡ true → double_star_loop next (l ++ r) ≡ true
  unfolding double_star_loop
  double_star_loop_complete [] [] h = h
  double_star_loop_complete [] (c ∷ r) h = ground arith
  double_star_loop_complete (c ∷ l) r h = ground (arith, double_star_loop_complete l r h)

match_tokens_sound :
    (ts : List Token) (s : Str) → match_tokens ts s ≡ true → Matches AtBoundary ts s
unfolding match_tokens
match_tokens_sound [] [] h = done
match_tokens_sound [] (c ∷ s) h = absurd (ground arith)
match_tokens_sound (literal l ∷ ts) s h = elim (Option-cases (strip_prefix l s)) [
  | inl e ↦ absurd (ground arith)
  | inr (r, e) ↦ text l (strip_prefix-eq_some l s r e) (match_tokens_sound ts r (ground arith))
]
match_tokens_sound (star ∷ ts) s h =
    let p = match_star_sound (match_tokens ts) s h in
    label p.label_part p.is_label p.whole p.boundary (match_tokens_sound ts p.rest p.onward)
match_tokens_sound (double_star ∷ ts) [] h = absurd (ground arith)
match_tokens_sound (double_star ∷ ts) (c ∷ s) h =
    let (l, r, whole, onward) = double_star_loop_sound (match_tokens ts) s h in
    labels (c ∷ l) (λ p. cc) (ap (λ t. c ∷ t) whole) (match_tokens_sound ts r onward)

double_star_complete :
    (next : Str → Bool) (l r : Str)
    → l ≢ []
    → next r ≡ true
    → match_double_star next (l ++ r) ≡ true
unfolding match_double_star
double_star_complete next [] r n h = absurd (n refl)
double_star_complete next (c ∷ l) r n h = double_star_loop_complete next l r h

match_tokens_complete :
    {ts : List Token} {s : Str} → Matches AtBoundary ts s → match_tokens ts s ≡ true
unfolding match_tokens
match_tokens_complete done = refl
match_tokens_complete (text {ts} {s} l e m) =
    rw (e, strip_prefix-append l s) (match_tokens_complete m)
match_tokens_complete (label {ts} {s} l i e b m) =
    rw e (match_star_complete (match_tokens ts) l s i b (match_tokens_complete m))
match_tokens_complete (labels {ts} {s} l n e m) =
    rw e (double_star_complete (match_tokens ts) l s n (match_tokens_complete m))

-- The matcher answers true exactly on the hosts that match its tokens: a literal takes its own
-- text, a star a nonempty text with no dot that goes on to a dot or to the end, and a double star
-- any nonempty text.
pub match_tokens_iff :
    (ts : List Token) (s : Str) → (match_tokens ts s ≡ true) ↔ Matches AtBoundary ts s
match_tokens_iff ts s = (match_tokens_sound ts s, match_tokens_complete)
