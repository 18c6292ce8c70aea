-- ===== src/H2/Connection/Exclusion.antt =====
-- The order in which the streams get the lock, and what holds of all of them together.
use condukt.Prelude.{
  ℕ, ◌≡◌, ◌≢◌, refl, sym, ◌∙◌, ◌⊎◌, inl, inr, Bool, true, false, List, [], ◌∷◌, ◌++◌, ◌==◌, ==_iff,
  arith, append-nil, Bool-cases,
}
use condukt.Event.{Request}
use condukt.H2.{Effect, proxy_stream}
use condukt.H2.Connection.{
  Stage, Server, start, Turn, polls, drops, moved, leave, is_first, drop_at, drop, Exchanges,
  begin_at, go_on, poll_at, poll, run,
}
use condukt.H2.Connection.Line.{
  stands, ahead, in_line, is_first_alone, ahead-join, ahead-leave, ahead_first, over,
}
use condukt.H2.Connection.Trace.{own, whole_at, run-Traced}
use condukt.H2.Connection.Lock.{Locked, over-in_line, run-Locked}

-- `t` stands ahead of `u`, or is over.
abbrev Precedes : ℕ → ℕ → Server → Type 0
Precedes t u s = (ahead t u s.line ≡ true) ⊎ (over (s.stage t) ≡ true)

-- where a stream has left the line, the order of the others is kept
left-Precedes :
    (w t u : ℕ) (stage : Stage) (s : Server) (trace : List (ℕ × Effect))
    → over stage ≡ true
    → Precedes t u s
    → Precedes t u (record { stage = moved s.stage w stage; line = leave w s.line; trace = trace })
left-Precedes w t u stage s trace ends p = elim (Bool-cases (w == t)) [
  | inl same ↦ inr (rw same ends)
  | inr other ↦ elim p [ inl h ↦ inl (ahead-leave t u w s.line other h) | inr h ↦ inr (rw other h) ]
]

drop_at-Precedes :
    (stage : Stage) (w t u : ℕ) (s : Server) → Precedes t u s → Precedes t u (drop_at stage w s)
drop_at-Precedes Stage.accepted w t u s p = left-Precedes w t u Stage.dropped s s.trace refl p
drop_at-Precedes Stage.opened w t u s p = left-Precedes w t u Stage.dropped s s.trace refl p
drop_at-Precedes Stage.sending w t u s p = left-Precedes w t u Stage.dropped s s.trace refl p
drop_at-Precedes Stage.answered w t u s p = p
drop_at-Precedes Stage.dropped w t u s p = p

module _ (x : Exchanges) (base : Request) where
  -- one that is not over before the step of `w` is not made over by it
  begin_at-Precedes :
      (line : List ℕ) (w t u : ℕ) (s : Server)
      → s.stage w ≡ Stage.accepted
      → s.line ≡ line
      → Precedes t u s
      → Precedes t u (begin_at x base line w s)
  begin_at-Precedes [] w t u s e f (inl h) = absurd (ground (arith, h, f))
  begin_at-Precedes (v ∷ vs) w t u s e f (inl h) =
      inl (ahead-join t u w (v ∷ vs) (ground (arith, h, f)))
  begin_at-Precedes [] w t u s e f (inr h) = inr (ground (arith, ==_iff w t, h, e))
  begin_at-Precedes (v ∷ vs) w t u s e f (inr h) = inr (ground (arith, ==_iff w t, h, e))

  go_on-Precedes :
      (first : Bool) (w t u : ℕ) (s : Server)
      → s.stage w ≡ Stage.opened
      → Precedes t u s
      → Precedes t u (go_on x base first w s)
  go_on-Precedes true w t u s e (inl h) = inl h
  go_on-Precedes true w t u s e (inr h) = inr (ground (arith, ==_iff w t, h, e))
  go_on-Precedes false w t u s e p = p

  poll_at-Precedes :
      (stage : Stage) (w t u : ℕ) (s : Server)
      → s.stage w ≡ stage
      → Precedes t u s
      → Precedes t u (poll_at x base stage w s)
  poll_at-Precedes Stage.accepted w t u s e p = begin_at-Precedes s.line w t u s e refl p
  poll_at-Precedes Stage.opened w t u s e p = go_on-Precedes (is_first w s.line) w t u s e p
  poll_at-Precedes Stage.sending w t u s e p =
      left-Precedes w t u Stage.answered s (poll_at x base Stage.sending w s).trace refl p
  poll_at-Precedes Stage.answered w t u s e p = p
  poll_at-Precedes Stage.dropped w t u s e p = p

  run-Precedes :
      (turns : List Turn) (t u : ℕ) (s : Server)
      → Precedes t u s
      → Precedes t u (run x base turns s)
  unfolding run
  run-Precedes [] t u s p = p
  run-Precedes (polls w ∷ rest) t u s p =
      run-Precedes rest t u (poll x base w s)
        (unfold poll in poll_at-Precedes (s.stage w) w t u s refl p)
  run-Precedes (drops w ∷ rest) t u s p =
      run-Precedes rest t u (drop w s) (unfold drop in drop_at-Precedes (s.stage w) w t u s p)

  gets_lock :
      (t : ℕ) (s : Server)
      → s.stage t ≡ Stage.opened
      → is_first t s.line ≡ true
      → (poll x base t s).stage t ≡ Stage.sending
  unfolding poll
  gets_lock t s e f = rw (e, f, (==_iff t t).1 refl)

  waits_on :
      (t : ℕ) (s : Server)
      → s.stage t ≡ Stage.opened
      → is_first t s.line ≡ false
      → poll x base t s ≡ s
  unfolding poll
  waits_on t s e f = rw (e, f)

overtaken :
    (t u : ℕ) (s : Server)
    → t ≢ u
    → Locked s
    → Precedes t u s
    → s.stage u ≡ Stage.sending
    → in_line (s.stage t) ≡ false
overtaken t u s n l (inl h) e = absurd (ahead_first t u s.line n h (l.first u e))
overtaken t u s n l (inr h) e = (over-in_line (s.stage t) h).0

-- What holds of the streams of one connection after any steps.
pub record Streamed (x : Exchanges) (base : Request) (s : Server) : Type 0 where
  -- a stream has done an initial part of `proxy_stream`
  pub part :
      (t : ℕ)
      → (todo : List Effect) × (own t s.trace ++ todo
          ≡ proxy_stream (x.answers t) (x.request t) base)
  -- all of it once it is answered
  pub complete :
      (t : ℕ)
      → s.stage t ≡ Stage.answered
      → own t s.trace ≡ proxy_stream (x.answers t) (x.request t) base
  -- at most one waits for the upstream's answer
  pub alone : (t u : ℕ) → s.stage t ≡ Stage.sending → s.stage u ≡ Stage.sending → t ≡ u
  -- the streams in the line are those that wait for the lock, and the one that waits for the upstream
  pub lined : (t : ℕ) → stands t s.line ≡ in_line (s.stage t)
  -- the first of them, if it still waits for the lock, gets it with its next step
  pub advances :
      (t : ℕ)
      → s.stage t ≡ Stage.opened
      → is_first t s.line ≡ true
      → (poll x base t s).stage t ≡ Stage.sending
  -- the others go on waiting
  pub waits : (t : ℕ) → s.stage t ≡ Stage.opened → is_first t s.line ≡ false → poll x base t s ≡ s
  -- and none is overtaken: when a later one has the lock, it is over
  pub in_order :
      (later : List Turn) (t u : ℕ)
      → t ≢ u
      → ahead t u s.line ≡ true
      → (run x base later s).stage u ≡ Stage.sending
      → in_line ((run x base later s).stage t) ≡ false

-- Whatever the order in which the streams step and the server drops them: the effects of each stream
-- are an initial part of `proxy_stream`'s, in its order, and all of them once it is answered; at
-- most one stream waits for the upstream, since the lock is held across the request; and the streams
-- get the lock in the order in which they have asked for it: the first in line gets it with its next
-- step, the others wait, and none has it while one that is ahead of it still waits.
pub run-Streamed :
    (x : Exchanges) (base : Request) (turns : List Turn) → Streamed x base (run x base turns start)
run-Streamed x base turns =
    let s = run x base turns start in
    let traced =
      λ (t : ℕ). run-Traced x base turns t start (record { todo = _; due = refl; whole = refl }) in
    let locked =
      run-Locked x base turns start
        (record { lined = λ t. refl; first = λ t h. absurd (ground arith) }) in
    record {
      part = λ t. ((traced t).todo, (traced t).whole);
      complete = λ t e.
          sym (append-nil _) ∙ whole_at x base Stage.answered t s [] (λ rest d. d) e (traced t);
      alone = λ t u e f. is_first_alone t u s.line (locked.first t e) (locked.first u f);
      lined = locked.lined;
      advances = λ t e f. gets_lock x base t s e f;
      waits = λ t e f. waits_on x base t s e f;
      in_order = λ later t u n h e.
          overtaken t u (run x base later s) n (run-Locked x base later s locked)
            (run-Precedes x base later t u s (inl h)) e;
    }
