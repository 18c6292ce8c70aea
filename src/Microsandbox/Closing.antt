-- ===== src/Microsandbox/Closing.antt =====
-- A session that was shut down is used no more.
use condukt.Prelude.{
  ◌≡◌, refl, ap, ◌∙◌, Bool, true, false, if◌then◌else◌, List, [], ◌∷◌, none, Str, arith, All, ◌⊎◌,
  inl, inr, Bool-cases, err,
}
use condukt.Prelude.Bytes.{Bytes}
use condukt.Microsandbox.{
  Backend, Session, Reply, raised, failed, answered, Command, lock_error, closed_error,
  clone_sandbox, use_sandbox, with_sandbox, take_sandbox, stop_taken, exec, read_file, write_file,
  shutdown, detach, drop,
}

pub data Operation : Type 0 where
  execs : Command → Operation
  reads : Str → Operation
  writes : Str → Bytes → Operation
  shuts_down : Operation
  drops : Operation

-- what an operation answers, without its answer's data
pub data Answer : Type 0 where
  raises : Str → Answer
  fails : Str → Answer
  succeeds : Answer

abbrev answer_of : {A : Type 0} → Reply A → Answer
answer_of (raised e) = raises e
answer_of (failed e) = fails e
answer_of (answered a) = succeeds

module _ {H W : Type 0} (b : Backend H W) where
  abbrev pub perform : Operation → Session H × W → Answer × Session H × W
  perform (execs command) (s, w) = let (r, v) = exec b s command w in (answer_of r, s, v)
  perform (reads path) (s, w) = let (r, v) = read_file b s path w in (answer_of r, s, v)
  perform (writes path content) (s, w) =
      let (r, v) = write_file b s path content w in (answer_of r, s, v)
  perform shuts_down (s, w) = (let (t, v) = shutdown b s w in (succeeds, t, v))
  perform drops (s, w) = (let (t, v) = drop b s w in (succeeds, t, v))

  -- the operations of a sequence with their answers, and where it ends
  abbrev pub perform_all :
      List Operation → Session H × W → List (Operation × Answer) × Session H × W
  perform_all [] (s, w) = ([], s, w)
  perform_all (o ∷ os) (s, w) =
      let (a, t, v) = perform o (s, w) in
      let (rest, u, x) = perform_all os (t, v) in ((o, a) ∷ rest, u, x)

  -- No sandbox can be taken or cloned.
  abbrev IsClosed : Session H → Type 0
  IsClosed s = (s.sandbox_poisoned ≡ true) ⊎ (s.sandbox ≡ none)

  abbrev pub IsRefusal : Operation × Answer → Type 0
  IsRefusal (shuts_down, a) = a ≡ succeeds
  IsRefusal (drops, a) = a ≡ succeeds
  IsRefusal (o, a) = (a ≡ raises closed_error) ⊎ (a ≡ raises lock_error)

  clone_closed :
      (s : Session H)
      → IsClosed s
      → (clone_sandbox s ≡ err closed_error) ⊎ (clone_sandbox s ≡ err lock_error)
  clone_closed s (inl p) = inr (rw p refl)
  clone_closed s (inr e) = elim (Bool-cases s.sandbox_poisoned) [
    | inl p ↦ inr (rw p refl)
    | inr p ↦ inl (rw (p, e) refl)
  ]

  -- Nothing reaches the sandbox of a closed session.
  with_closed :
      {A : Type 0} (s : Session H) (use_it : H → W → Reply A × W) (w : W)
      → IsClosed s
      → (with_sandbox s use_it w ≡ (raised closed_error, w))
        ⊎ (with_sandbox s use_it w ≡ (raised lock_error, w))
  with_closed s use_it w c = elim (clone_closed s c) [
    | inl e ↦ inl (ap (λ o. use_sandbox o s.runtime_poisoned use_it w) e)
    | inr e ↦ inr (ap (λ o. use_sandbox o s.runtime_poisoned use_it w) e)
  ]

  shutdown-IsClosed : (s : Session H) (w : W) → IsClosed (shutdown b s w).0
  unfolding shutdown
  shutdown-IsClosed s w = elim (Bool-cases s.sandbox_poisoned) [
    | inl p ↦ inl (ground (arith, p))
    | inr p ↦ inr (ground (arith, p))
  ]

  detach-IsClosed : (s : Session H) → IsClosed s → IsClosed (detach b s)
  detach-IsClosed s c = by_flags s.runtime_poisoned b.builds_placeholder
    where
      by_flags :
          (p q : Bool) → IsClosed (if p then s else if q then record s { detached = true } else s)
      by_flags true q = c
      by_flags false true = c
      by_flags false false = c

  drop-IsClosed : (s : Session H) (w : W) → IsClosed (drop b s w).0
  unfolding drop
  drop-IsClosed s w = detach-IsClosed (take_sandbox s).1 (unfold shutdown in shutdown-IsClosed s w)

  stop_closed :
      (s : Session H) (w : W)
      → IsClosed s
      → stop_taken b (take_sandbox s).0 s.runtime_poisoned w ≡ w
  stop_closed s w c = elim (Bool-cases s.sandbox_poisoned) [
    | inl p ↦ rw p refl
    | inr p ↦ elim c [ inl q ↦ absurd (ground (arith, p, q)) | inr e ↦ rw (p, e) refl ]
  ]

  record Idle (o : Operation) (s : Session H) (w : W) (after : Answer × Session H × W)
      : Type 0 where
    refused : IsRefusal (o, after.0)
    closed : IsClosed after.1
    world : after.2 ≡ w

  refused-Idle :
      {A : Type 0} (o : Operation) (s : Session H) (w : W) (r : Reply A × W)
      → IsClosed s
      → ((a : Answer) → (a ≡ raises closed_error) ⊎ (a ≡ raises lock_error) → IsRefusal (o, a))
      → (r ≡ (raised closed_error, w)) ⊎ (r ≡ (raised lock_error, w))
      → Idle o s w (answer_of r.0, s, r.1)
  refused-Idle o s w r c refusal (inl e) =
      rw e (record { refused = refusal _ (inl refl); closed = c; world = refl })
  refused-Idle o s w r c refusal (inr e) =
      rw e (record { refused = refusal _ (inr refl); closed = c; world = refl })

  perform-Idle :
      (o : Operation) (s : Session H) (w : W) → IsClosed s → Idle o s w (perform o (s, w))
  perform-Idle (execs command) s w c =
      refused-Idle (execs command) s w (exec b s command w) c (λ a r. r)
        (unfold exec in with_closed s _ w c)
  perform-Idle (reads path) s w c =
      refused-Idle (reads path) s w (read_file b s path w) c (λ a r. r)
        (unfold read_file in with_closed s _ w c)
  perform-Idle (writes path content) s w c =
      refused-Idle (writes path content) s w (write_file b s path content w) c (λ a r. r)
        (unfold write_file in with_closed s _ w c)
  perform-Idle shuts_down s w c = record {
    refused = refl;
    closed = shutdown-IsClosed s w;
    world = unfold shutdown in stop_closed s w c;
  }
  perform-Idle drops s w c = record {
    refused = refl;
    closed = drop-IsClosed s w;
    world = unfold drop in stop_closed s w c;
  }

  closed-All :
      (os : List Operation) (s : Session H) (w : W)
      → IsClosed s
      → All IsRefusal (perform_all os (s, w)).0 × ((perform_all os (s, w)).2 ≡ w)
  closed-All [] s w c = (tt, refl)
  closed-All (o ∷ os) s w c =
      let idle = perform-Idle o s w c in
      let later = closed-All os (perform o (s, w)).1 (perform o (s, w)).2 idle.closed in
      ((idle.refused, later.0), later.1 ∙ idle.world)

  -- After a shutdown, no sequence of operations reaches the sandbox again, which is the same then as
  -- right after the shutdown: commands, reads and writes are refused, and further shutdowns and the
  -- drop of the session succeed and do nothing, so that the sandbox is stopped at most once. It does
  -- not matter which locks are poisoned.
  pub shutdown_is_final :
      (os : List Operation) (s : Session H) (w : W)
      → All IsRefusal (perform_all os (shutdown b s w)).0
        × ((perform_all os (shutdown b s w)).2 ≡ (shutdown b s w).1)
  shutdown_is_final os s w =
      closed-All os (shutdown b s w).0 (shutdown b s w).1 (shutdown-IsClosed s w)
