-- ===== src/H2/Connection/Line.antt =====
-- The line for the lock: who stands in it, who is its first, and who is ahead of whom.
use condukt.Prelude.{
  ℕ, ◌≡◌, ◌≢◌, Bool, true, false, ◌||◌, List, [], ◌∷◌, ◌++◌, ◌==◌, ==_iff, if◌then◌else◌, arith,
}
use condukt.H2.Connection.{Stage, leave, is_first}

abbrev pub stands : ℕ → List ℕ → Bool
stands t [] = false
stands t (u ∷ us) = let rest = stands t us in if u == t then true else rest

-- the first of the two in the line is `t`
abbrev pub ahead : ℕ → ℕ → List ℕ → Bool
ahead t u [] = false
ahead t u (v ∷ vs) =
    let rest = ahead t u vs in if v == t then true else if v == u then false else rest

-- the stages in which a stream has the lock or waits for it
abbrev pub in_line : Stage → Bool
in_line Stage.accepted = false
in_line Stage.opened = true
in_line Stage.sending = true
in_line Stage.answered = false
in_line Stage.dropped = false

-- a stream that is over
abbrev pub over : Stage → Bool
over Stage.accepted = false
over Stage.opened = false
over Stage.sending = false
over Stage.answered = true
over Stage.dropped = true

pub stands-leave :
    (t u : ℕ) (l : List ℕ) → stands u (leave t l) ≡ (if t == u then false else stands u l)
unfolding leave
stands-leave t u [] = ground arith
stands-leave t u (v ∷ vs) = ground (arith, stands-leave t u vs, ==_iff v t, ==_iff v u, ==_iff t u)

pub stands-join : (t u : ℕ) (l : List ℕ) → stands u (l ++ t ∷ []) ≡ (stands u l || t == u)
stands-join t u [] = ground arith
stands-join t u (v ∷ vs) = ground (arith, stands-join t u vs)

pub is_first-leave :
    (t u : ℕ) (l : List ℕ) → (t == u) ≡ false → is_first u l ≡ true → is_first u (leave t l) ≡ true
unfolding leave
is_first-leave t u [] n h = absurd (ground arith)
is_first-leave t u (v ∷ vs) n h = ground (arith, ==_iff v t, ==_iff v u, ==_iff t u)

pub is_first_alone : (t u : ℕ) (l : List ℕ) → is_first t l ≡ true → is_first u l ≡ true → t ≡ u
is_first_alone t u [] h k = absurd (ground arith)
is_first_alone t u (v ∷ vs) h k = ground (arith, ==_iff v t, ==_iff v u)

pub ahead-join : (t u w : ℕ) (l : List ℕ) → ahead t u l ≡ true → ahead t u (l ++ w ∷ []) ≡ true
ahead-join t u w [] h = absurd (ground arith)
ahead-join t u w (v ∷ vs) h = ground (arith, ahead-join t u w vs)

pub ahead-leave :
    (t u w : ℕ) (l : List ℕ) → (w == t) ≡ false → ahead t u l ≡ true → ahead t u (leave w l) ≡ true
unfolding leave
ahead-leave t u w [] n h = h
ahead-leave t u w (v ∷ vs) n h =
    ground (arith, ahead-leave t u w vs n, ==_iff v w, ==_iff v t, ==_iff w t)

-- who is ahead of another leaves it not the first
pub ahead_first : (t u : ℕ) (l : List ℕ) → t ≢ u → ahead t u l ≡ true → is_first u l ≡ true → ⊥
ahead_first t u [] n h k = absurd (ground arith)
ahead_first t u (v ∷ vs) n h k = n (ground (arith, ==_iff v t, ==_iff v u, h, k))
