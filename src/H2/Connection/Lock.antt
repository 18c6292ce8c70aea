-- ===== src/H2/Connection/Lock.antt =====
-- Who has the lock around the upstream's sender.
use condukt.Prelude.{
  ℕ, ◌≡◌, ◌≢◌, refl, inl, inr, Bool, true, false, List, [], ◌∷◌, ◌==◌, ==_iff, arith, if◌then◌else◌,
  Bool-cases,
}
use condukt.Event.{Request}
use condukt.H2.Connection.{
  Stage, Server, Turn, polls, drops, leave, is_first, dropped_from, drop_at, drop, Exchanges,
  begin_at, go_on, poll_at, poll, run,
}
use condukt.H2.Connection.Line.{stands, in_line, stands-leave, stands-join, is_first-leave, over}

-- The line holds the streams that have the lock or wait for it, and the one that waits for the
-- upstream is the first.
pub record Locked (s : Server) : Type 0 where
  pub lined : (t : ℕ) → stands t s.line ≡ in_line (s.stage t)
  pub first : (t : ℕ) → s.stage t ≡ Stage.sending → is_first t s.line ≡ true

-- a stream that is over leaves the line
pub over-in_line :
    (stage : Stage) → over stage ≡ true → (in_line stage ≡ false) × (stage ≢ Stage.sending)
over-in_line Stage.accepted h = absurd (ground arith)
over-in_line Stage.opened h = absurd (ground arith)
over-in_line Stage.sending h = absurd (ground arith)
over-in_line Stage.answered h = (refl, λ e. ground (arith, e))
over-in_line Stage.dropped h = (refl, λ e. ground (arith, e))

module _ (t : ℕ) (stage : Stage) (s : Server) (ends : over stage ≡ true) (l : Locked s) where
  left-lined : (u : ℕ) → stands u (leave t s.line) ≡ in_line (if t == u then stage else s.stage u)
  left-lined u = ground (arith, stands-leave t u s.line, l.lined u, (over-in_line stage ends).0)

  left-first :
      (u : ℕ)
      → (if t == u then stage else s.stage u) ≡ Stage.sending
      → is_first u (leave t s.line) ≡ true
  left-first u h = elim (Bool-cases (t == u)) [
    | inl same ↦ absurd ((over-in_line stage ends).1 (ground (arith, h, same)))
    | inr other ↦ is_first-leave t u s.line other (l.first u (ground (arith, h, other)))
  ]

dropped_from-Locked : (t : ℕ) (s : Server) → Locked s → Locked (dropped_from t s)
dropped_from-Locked t s l = record {
  lined = left-lined t Stage.dropped s refl l;
  first = left-first t Stage.dropped s refl l;
}

drop_at-Locked : (stage : Stage) (t : ℕ) (s : Server) → Locked s → Locked (drop_at stage t s)
drop_at-Locked Stage.accepted t s l = dropped_from-Locked t s l
drop_at-Locked Stage.opened t s l = dropped_from-Locked t s l
drop_at-Locked Stage.sending t s l = dropped_from-Locked t s l
drop_at-Locked Stage.answered t s l = l
drop_at-Locked Stage.dropped t s l = l

module _ (x : Exchanges) (base : Request) where
  begin_at-Locked :
      (line : List ℕ) (t : ℕ) (s : Server)
      → s.stage t ≡ Stage.accepted
      → s.line ≡ line
      → Locked s
      → Locked (begin_at x base line t s)
  begin_at-Locked [] t s e f l = record {
    lined = λ u. ground (arith, ==_iff t u, l.lined u, f);
    first = λ u h. ground (arith, ==_iff t u, l.first u, f);
  }
  begin_at-Locked (v ∷ vs) t s e f l = record {
    lined = λ u. ground (arith, ==_iff t u, l.lined u, f, stands-join t u (v ∷ vs));
    first = λ u h. ground (arith, ==_iff t u, l.first u, f);
  }

  go_on-Locked :
      (first : Bool) (t : ℕ) (s : Server)
      → s.stage t ≡ Stage.opened
      → is_first t s.line ≡ first
      → Locked s
      → Locked (go_on x base first t s)
  go_on-Locked true t s e f l = record {
    lined = λ u. ground (arith, ==_iff t u, l.lined u, l.lined t, e);
    first = λ u h. ground (arith, ==_iff t u, l.first u, f);
  }
  go_on-Locked false t s e f l = l

  poll_at-Locked :
      (stage : Stage) (t : ℕ) (s : Server)
      → s.stage t ≡ stage
      → Locked s
      → Locked (poll_at x base stage t s)
  poll_at-Locked Stage.accepted t s e l = begin_at-Locked s.line t s e refl l
  poll_at-Locked Stage.opened t s e l = go_on-Locked (is_first t s.line) t s e refl l
  poll_at-Locked Stage.sending t s e l = record {
    lined = left-lined t Stage.answered s refl l;
    first = left-first t Stage.answered s refl l;
  }
  poll_at-Locked Stage.answered t s e l = l
  poll_at-Locked Stage.dropped t s e l = l

  pub run-Locked : (turns : List Turn) (s : Server) → Locked s → Locked (run x base turns s)
  unfolding run
  run-Locked [] s l = l
  run-Locked (polls t ∷ rest) s l =
      run-Locked rest (poll x base t s) (unfold poll in poll_at-Locked (s.stage t) t s refl l)
  run-Locked (drops t ∷ rest) s l =
      run-Locked rest (drop t s) (unfold drop in drop_at-Locked (s.stage t) t s l)
