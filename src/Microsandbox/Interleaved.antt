-- ===== src/Microsandbox/Interleaved.antt =====
-- The operations of a session at once. A call that uses the sandbox first clones it under the one
-- lock and then uses it under the lock of the runtime, and a shutdown takes it and then stops it in
-- the same way, so that other calls may run in between. Calls are numbered.
pub mod Order
use condukt.Prelude.{
  ℕ, Bool, true, false, List, [], ◌∷◌, Option, none, some, Str, ◌==◌, if◌then◌else◌, Result, ok,
  err,
}
use condukt.Microsandbox.{Session, take_sandbox, clone_sandbox}

-- Where a call of `exec`, `read_file` or `write_file` stands: before its clone, before its use of
-- what it cloned, and returned.
pub data UsePhase (H : Type 0) : Type 0 where
  starting : UsePhase H
  cloned : H → UsePhase H
  returned : UsePhase H

-- Where a shutdown, or the drop of the session, stands.
pub data ClosePhase (H : Type 0) : Type 0 where
  starting : ClosePhase H
  taken : H → ClosePhase H
  returned : ClosePhase H

-- what calls did with the sandbox
pub data Access (H : Type 0) : Type 0 where
  clones : ℕ → H → Access H
  uses : ℕ → H → Access H
  takes : ℕ → H → Access H
  stops : ℕ → H → Access H

-- `log` has the accesses, the latest first.
pub record Vm (H : Type 0) : Type 0 where
  pub session : Session H
  pub use_phase : ℕ → UsePhase H
  pub close_phase : ℕ → ClosePhase H
  pub log : List (Access H)

pub data Turn : Type 0 where
  use_turn : ℕ → Turn
  close_turn : ℕ → Turn

module _ {H : Type 0} where
  abbrev pub start : Session H → Vm H
  start s = record {
    session = s;
    use_phase = λ t. UsePhase.starting;
    close_phase = λ t. ClosePhase.starting;
    log = [];
  }

  abbrev pub used : (ℕ → UsePhase H) → ℕ → UsePhase H → ℕ → UsePhase H
  used f t p u = if t == u then p else f u

  abbrev pub closed : (ℕ → ClosePhase H) → ℕ → ClosePhase H → ℕ → ClosePhase H
  closed f t p u = if t == u then p else f u

  -- `clone_sandbox(&session)?`
  abbrev pub after_clone : Result Str H → ℕ → Vm H → Vm H
  after_clone (err e) t v = record v { use_phase = used v.use_phase t UsePhase.returned }
  after_clone (ok h) t v = record v {
    use_phase = used v.use_phase t (UsePhase.cloned h);
    log = clones t h ∷ v.log;
  }

  -- the lock of the runtime, and the use under it
  abbrev pub after_use : Bool → ℕ → H → Vm H → Vm H
  after_use true t h v = record v { use_phase = used v.use_phase t UsePhase.returned }
  after_use false t h v = record v {
    use_phase = used v.use_phase t UsePhase.returned;
    log = uses t h ∷ v.log;
  }

  abbrev pub use_at : UsePhase H → ℕ → Vm H → Vm H
  use_at UsePhase.starting t v = after_clone (clone_sandbox v.session) t v
  use_at (UsePhase.cloned h) t v = after_use v.session.runtime_poisoned t h v
  use_at UsePhase.returned t v = v

  -- `take_sandbox(&session)`
  abbrev pub after_take : Option H → ℕ → Vm H → Vm H
  after_take none t v = record v { close_phase = closed v.close_phase t ClosePhase.returned }
  after_take (some h) t v = record {
    session = record v.session { sandbox = none };
    use_phase = v.use_phase;
    close_phase = closed v.close_phase t (ClosePhase.taken h);
    log = takes t h ∷ v.log;
  }

  -- the lock of the runtime, and the stop under it
  abbrev pub after_stop : Bool → ℕ → H → Vm H → Vm H
  after_stop true t h v = record v { close_phase = closed v.close_phase t ClosePhase.returned }
  after_stop false t h v = record v {
    close_phase = closed v.close_phase t ClosePhase.returned;
    log = stops t h ∷ v.log;
  }

  abbrev pub close_at : ClosePhase H → ℕ → Vm H → Vm H
  close_at ClosePhase.starting t v = after_take (take_sandbox v.session).0 t v
  close_at (ClosePhase.taken h) t v = after_stop v.session.runtime_poisoned t h v
  close_at ClosePhase.returned t v = v

  unfoldable pub turn : Turn → Vm H → Vm H
  turn (use_turn t) v = use_at (v.use_phase t) t v
  turn (close_turn t) v = close_at (v.close_phase t) t v

  unfoldable pub run : List Turn → Vm H → Vm H
  unfolding turn
  run [] v = v
  run (x ∷ xs) v = run xs (turn x v)
