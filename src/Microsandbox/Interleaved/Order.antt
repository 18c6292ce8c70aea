-- ===== src/Microsandbox/Interleaved/Order.antt =====
-- The order of the accesses to the sandbox.
use condukt.Prelude.{
  ℕ, ◌≡◌, refl, subst, Bool, true, false, List, [], ◌∷◌, Option, none, some, Str, ◌==◌, ==_iff,
  if◌then◌else◌, Result, ok, err, All, Any, inl, inr, arith, Bool-cases,
}
use condukt.Microsandbox.{Session, take_sandbox, clone_sandbox, opened, lock_error}
use condukt.Microsandbox.Interleaved.{
  UsePhase, ClosePhase, Access, clones, uses, takes, stops, Vm, Turn, use_turn, close_turn, start,
  after_clone, after_use, use_at, after_take, after_stop, close_at, turn, run,
}

module _ {H : Type 0} where
  abbrev pub IsNoTake : Access H → Type 0
  IsNoTake (takes t h) = ⊥
  IsNoTake (clones t h) = Unit
  IsNoTake (uses t h) = Unit
  IsNoTake (stops t h) = Unit

  abbrev pub IsNoStop : Access H → Type 0
  IsNoStop (stops t h) = ⊥
  IsNoStop (clones t h) = Unit
  IsNoStop (uses t h) = Unit
  IsNoStop (takes t h) = Unit

  -- what must have happened before an access, in a log with the latest first
  abbrev pub Allowed : Access H → List (Access H) → Type 0
  Allowed (clones t h) before = All IsNoTake before
  Allowed (uses t h) before = Any (λ a. a ≡ clones t h) before
  Allowed (takes t h) before = All IsNoTake before
  Allowed (stops t h) before = Any (λ a. a ≡ takes t h) before × All IsNoStop before

  abbrev pub IsOrdered : List (Access H) → Type 0
  IsOrdered [] = Unit
  IsOrdered (a ∷ rest) = Allowed a rest × IsOrdered rest

  record Inv (v : Vm H) : Type 0 where
    ordered : IsOrdered v.log
    -- a sandbox in the session has not been taken
    present : (h : H) → v.session.sandbox ≡ some h → All IsNoTake v.log
    cloned_before :
        (t : ℕ) (h : H) → v.use_phase t ≡ UsePhase.cloned h → Any (λ a. a ≡ clones t h) v.log
    taken_before :
        (t : ℕ) (h : H)
        → v.close_phase t ≡ ClosePhase.taken h
        → Any (λ a. a ≡ takes t h) v.log × All IsNoStop v.log
    -- one call at most has taken it and not gone on
    one_taker :
        (t u : ℕ) (h k : H)
        → v.close_phase t ≡ ClosePhase.taken h
        → v.close_phase u ≡ ClosePhase.taken k
        → t ≡ u
    unstopped : All IsNoTake v.log → All IsNoStop v.log

  clone_ok : (s : Session H) (h : H) → clone_sandbox s ≡ ok h → s.sandbox ≡ some h
  clone_ok s h e = by_lock s.sandbox_poisoned s.sandbox e
    where
      by_lock :
          (b : Bool) (o : Option H) → (if b then err lock_error else opened o) ≡ ok h → o ≡ some h
      by_lock true o e = absurd cc
      by_lock false none e = absurd cc
      by_lock false (some k) e = cc

  take_some : (s : Session H) (h : H) → (take_sandbox s).0 ≡ some h → s.sandbox ≡ some h
  take_some s h e = ground (arith, e)

  no_take_of_Any :
      (t : ℕ) (h : H) (log : List (Access H)) → Any (λ a. a ≡ takes t h) log → All IsNoTake log → ⊥
  no_take_of_Any t h [] m n = absurd m
  no_take_of_Any t h (a ∷ log) (inl e) n = subst IsNoTake e n.0
  no_take_of_Any t h (a ∷ log) (inr m) n = no_take_of_Any t h log m n.1

  after_clone-Inv :
      (r : Result Str H) (t : ℕ) (v : Vm H)
      → clone_sandbox v.session ≡ r
      → Inv v
      → Inv (after_clone r t v)
  after_clone-Inv (err x) t v e i = record {
    ordered = i.ordered;
    present = i.present;
    cloned_before = λ u k q. i.cloned_before u k (ground arith);
    taken_before = i.taken_before;
    one_taker = i.one_taker;
    unstopped = i.unstopped;
  }
  after_clone-Inv (ok h) t v e i =
      let untaken = i.present h (clone_ok v.session h e) in
      record {
        ordered = (untaken, i.ordered);
        present = λ k q. (tt, untaken);
        cloned_before = λ u k q. elim (Bool-cases (t == u)) [
          | inl same ↦ inl (ground (arith, ==_iff t u))
          | inr other ↦ inr (i.cloned_before u k (ground arith))
        ];
        taken_before = λ u k q. let (m, n) = i.taken_before u k q in (inr m, (tt, n));
        one_taker = i.one_taker;
        unstopped = λ n. (tt, i.unstopped n.1);
      }

  after_use-Inv :
      (b : Bool) (t : ℕ) (h : H) (v : Vm H)
      → v.use_phase t ≡ UsePhase.cloned h
      → Inv v
      → Inv (after_use b t h v)
  after_use-Inv true t h v e i = record {
    ordered = i.ordered;
    present = i.present;
    cloned_before = λ u k q. i.cloned_before u k (ground arith);
    taken_before = i.taken_before;
    one_taker = i.one_taker;
    unstopped = i.unstopped;
  }
  after_use-Inv false t h v e i = record {
    ordered = (i.cloned_before t h e, i.ordered);
    present = λ k q. (tt, i.present k q);
    cloned_before = λ u k q. inr (i.cloned_before u k (ground arith));
    taken_before = λ u k q. let (m, n) = i.taken_before u k q in (inr m, (tt, n));
    one_taker = i.one_taker;
    unstopped = λ n. (tt, i.unstopped n.1);
  }

  after_take-Inv :
      (o : Option H) (t : ℕ) (v : Vm H)
      → (take_sandbox v.session).0 ≡ o
      → Inv v
      → Inv (after_take o t v)
  after_take-Inv none t v e i = record {
    ordered = i.ordered;
    present = i.present;
    cloned_before = i.cloned_before;
    taken_before = λ u k q. i.taken_before u k (ground arith);
    one_taker = λ u w h k p q. i.one_taker u w h k (ground arith) (ground arith);
    unstopped = i.unstopped;
  }
  after_take-Inv (some h) t v e i =
      let untaken = i.present h (take_some v.session h e) in
      let nobody = λ (u : ℕ) (k : H) (q : v.close_phase u ≡ ClosePhase.taken k).
        no_take_of_Any u k v.log (i.taken_before u k q).0 untaken in
      record {
        ordered = (untaken, i.ordered);
        present = λ k q. absurd (ground (arith, q));
        cloned_before = λ u k q. inr (i.cloned_before u k q);
        taken_before = λ u k q. elim (Bool-cases (t == u)) [
          | inl same ↦ (inl (ground (arith, ==_iff t u)), (tt, i.unstopped untaken))
          | inr other ↦ absurd (nobody u k (ground arith))
        ];
        one_taker = λ u w k l p q. ground (arith, ==_iff t u, ==_iff t w, nobody u k, nobody w l);
        unstopped = λ n. absurd n.0;
      }

  after_stop-Inv :
      (b : Bool) (t : ℕ) (h : H) (v : Vm H)
      → v.close_phase t ≡ ClosePhase.taken h
      → Inv v
      → Inv (after_stop b t h v)
  after_stop-Inv true t h v e i = record {
    ordered = i.ordered;
    present = i.present;
    cloned_before = i.cloned_before;
    taken_before = λ u k q. i.taken_before u k (ground arith);
    one_taker = λ u w h k p q. i.one_taker u w h k (ground arith) (ground arith);
    unstopped = i.unstopped;
  }
  after_stop-Inv false t h v e i = record {
    ordered = (i.taken_before t h e, i.ordered);
    present = λ k q. absurd (no_take_of_Any t h v.log (i.taken_before t h e).0 (i.present k q));
    cloned_before = λ u k q. inr (i.cloned_before u k q);
    taken_before = λ u k q. elim (Bool-cases (t == u)) [
      | inl same ↦ absurd (ground arith)
      | inr other ↦ absurd (ground (arith, i.one_taker t u h k e (ground arith), ==_iff t u))
    ];
    one_taker = λ u w h k p q. i.one_taker u w h k (ground arith) (ground arith);
    unstopped = λ n. absurd (no_take_of_Any t h v.log (i.taken_before t h e).0 n.1);
  }

  use_at-Inv : (p : UsePhase H) (t : ℕ) (v : Vm H) → v.use_phase t ≡ p → Inv v → Inv (use_at p t v)
  use_at-Inv UsePhase.starting t v e i = after_clone-Inv (clone_sandbox v.session) t v refl i
  use_at-Inv (UsePhase.cloned h) t v e i = after_use-Inv v.session.runtime_poisoned t h v e i
  use_at-Inv UsePhase.returned t v e i = i

  close_at-Inv :
      (p : ClosePhase H) (t : ℕ) (v : Vm H) → v.close_phase t ≡ p → Inv v → Inv (close_at p t v)
  close_at-Inv ClosePhase.starting t v e i = after_take-Inv (take_sandbox v.session).0 t v refl i
  close_at-Inv (ClosePhase.taken h) t v e i = after_stop-Inv v.session.runtime_poisoned t h v e i
  close_at-Inv ClosePhase.returned t v e i = i

  run-Inv : (turns : List Turn) (v : Vm H) → Inv v → Inv (run turns v)
  unfolding run turn
  run-Inv [] v i = i
  run-Inv (use_turn t ∷ turns) v i =
      run-Inv turns (turn (use_turn t) v) (use_at-Inv (v.use_phase t) t v refl i)
  run-Inv (close_turn t ∷ turns) v i =
      run-Inv turns (turn (close_turn t) v) (close_at-Inv (v.close_phase t) t v refl i)

  start-Inv : (s : Session H) → Inv (start s)
  start-Inv s = record {
    ordered = tt;
    present = λ h e. tt;
    cloned_before = λ t h e. absurd (ground arith);
    taken_before = λ t h e. absurd (ground arith);
    one_taker = λ t u h k p q. absurd (ground arith);
    unstopped = λ n. tt;
  }

  -- Whatever the order of the steps of any commands, reads, writes, shutdowns and the drop, and
  -- whichever locks are poisoned: the sandbox is taken at most once and stopped at most once, by the
  -- call that took it; a use of it is by a call that cloned it before, and it is cloned only as long
  -- as it has not been taken, so that a call that begins later never reaches it.
  pub run-IsOrdered : (turns : List Turn) (s : Session H) → IsOrdered (run turns (start s)).log
  run-IsOrdered turns s = (run-Inv turns (start s) (start-Inv s)).ordered
