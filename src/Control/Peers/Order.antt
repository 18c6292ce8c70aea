-- ===== src/Control/Peers/Order.antt =====
-- The frames of successive peers, and the channel under all of them.
use condukt.Prelude.{
  ℕ, ◌+◌, ◌≡◌, refl, sym, ap, subst, ◌∙◌, Bool, true, false, List, [], ◌∷◌, ◌++◌, Option, none,
  some, Str, ltb, if◌then◌else◌, is_empty, length, arith, append-nil, append_assoc, Bool-cases, inl,
  inr,
}
use condukt.Prelude.Bytes.{trim}
use condukt.Event.{Outbound, Inbound}
use condukt.Control.{
  buffer_cap, Decision, resolve, Query, Channel, try_send, emit, frame_of, register, send, receive,
  give_up, clean, handle_line, pop, recv,
}
use condukt.Control.Steps.{
  Step, emits, registers, sends, receives, gives_up, cleans, reads, writes, here, next,
}
use condukt.Control.Peers.{
  Stage, Fate, sent, skipped, lost, Relay, accept_at, accept, fate, stage_after, logged, write_next,
  write_at, write, hear, stage_at_end, end_reading,
}
use condukt.Control.Peers.History.{
  IsOthers, accepted, entering, heard_line, Serves, begins, acts, connects, takes, hears, closes,
  frame, frames, Follows, losses, busy, next_peer, Relayed,
}

queue-try_send : (f : Outbound) (q : List Outbound) → (try_send f q).0 ≡ q ++ accepted f q
unfolding try_send
queue-try_send f q = at_room (ltb (length q) buffer_cap)
  where
    at_room :
        (b : Bool)
        → (if◌then◌else◌ {A = List Outbound × Bool} b (q ++ f ∷ [], true) (q, false)).0
          ≡ q ++ (if b then f ∷ [] else [])
    at_room true = refl
    at_room false = sym (append-nil q)

queue-Step :
    {c d : Channel} {label : Option (Option Inbound)} (s : Step c label d)
    → IsOthers s
    → d.queue ≡ c.queue ++ entering s
unfolding emit register send receive give_up clean
queue-Step {c} (emits e) o = queue-try_send (Outbound.event e) c.queue
queue-Step {c} (sends t p) o = queue-try_send (frame_of (c.query t)) c.queue
queue-Step {c} (registers t p) o = sym (append-nil c.queue)
queue-Step {c} (receives t d p s) o = sym (append-nil c.queue)
queue-Step {c} (gives_up t p s) o = sym (append-nil c.queue)
queue-Step {c} (cleans t p) o = sym (append-nil c.queue)
queue-Step (reads line) o = absurd o
queue-Step writes o = absurd o

queue-resolve :
    (id : Str) (d : Decision) (o : Option ℕ) (c : Channel) → (resolve id d o c).queue ≡ c.queue
queue-resolve id d none c = refl
queue-resolve id d (some t) c = refl

queue-handle_line : (line : Option Inbound) (c : Channel) → (handle_line line c).queue ≡ c.queue
unfolding handle_line
queue-handle_line none c = refl
queue-handle_line (some Inbound.unknown) c = refl
queue-handle_line (some (Inbound.decision id action reason)) c = queue-resolve id _ _ c

queue-pop : (q : List Outbound) (f : Outbound) → (pop q).0 ≡ some f → q ≡ f ∷ (pop q).1
queue-pop [] f h = absurd (ground (arith, h))
queue-pop (g ∷ rest) f h = ground (arith, h)

frame-fate : (o : Option Str) (answer : Bool) (f : Outbound) → frame (fate o answer f) ≡ f
frame-fate none answer f = refl
frame-fate (some json) true f = refl
frame-fate (some json) false f = refl

-- what stands before the entries after this one
Follows-after :
    (f : Fate) (reading : Bool) (n : ℕ) (log : List (ℕ × Fate))
    → Follows (next_peer (stage_after f reading) n) ((n, f) ∷ log)
Follows-after (sent f) reading n log = refl
Follows-after (skipped f) reading n log = refl
Follows-after (lost f) true n log = refl
Follows-after (lost f) false n log = refl

losses-after :
    (f : Fate) (reading : Bool) (n : ℕ) (log : List (ℕ × Fate))
    → losses ((n, f) ∷ log) + busy (stage_after f reading) ≡ losses log + 1
losses-after (sent f) reading n log = refl
losses-after (skipped f) reading n log = refl
losses-after (lost f) true n log = omega arith
losses-after (lost f) false n log = omega arith

module _ {query : ℕ → Query} {entered : List Outbound} {lines : List (Option Inbound)} where
  acts-Relayed :
      (r : Relay) {c : Channel} (s : Step r.channel none c)
      → IsOthers s
      → Relayed query entered lines r
      → Relayed query (entered ++ entering s) lines (record r { channel = c })
  acts-Relayed r {c} s o i = record {
    channel_run = next none i.channel_run s;
    in_order =
        ap (λ l. l ++ entering s) i.in_order
        ∙ (append_assoc (frames r.log) r.channel.queue (entering s)
            ∙ ap (λ l. frames r.log ++ l) (sym (queue-Step s o)));
    by_peer = i.by_peer;
    one_each = i.one_each;
  }

  accept_at-Relayed :
      (stage : Stage) (r : Relay)
      → r.stage ≡ stage
      → Relayed query entered lines r
      → Relayed query entered lines (accept_at stage r)
  accept_at-Relayed Stage.accepting r e i = record {
    channel_run = i.channel_run;
    in_order = i.in_order;
    by_peer = (i.by_peer.0, subst (λ s. Follows (next_peer s r.peer) r.log) e i.by_peer.1);
    one_each = omega (arith, subst (λ s. losses r.log + busy s ≡ r.peer) e i.one_each);
  }
  accept_at-Relayed Stage.writing r e i = i
  accept_at-Relayed Stage.draining r e i = i

  end_reading-Relayed :
      (r : Relay) → Relayed query entered lines r → Relayed query entered lines (end_reading r)
  unfolding end_reading
  end_reading-Relayed r i = record {
    channel_run = i.channel_run;
    in_order = i.in_order;
    by_peer = (i.by_peer.0, at_peer r.stage i.by_peer.1);
    one_each = at_count r.stage ∙ i.one_each;
  }
    where
      at_peer :
          (s : Stage)
          → Follows (next_peer s r.peer) r.log
          → Follows (next_peer (stage_at_end s) r.peer) r.log
      at_peer Stage.accepting h = h
      at_peer Stage.writing h = h
      at_peer Stage.draining h = h

      at_count : (s : Stage) → losses r.log + busy (stage_at_end s) ≡ losses r.log + busy s
      at_count Stage.accepting = refl
      at_count Stage.writing = refl
      at_count Stage.draining = refl

  hear-Relayed :
      (from_str : Str → Option Inbound) (l : Str) (r : Relay)
      → Relayed query entered lines r
      → Relayed query entered (heard_line from_str l lines) (hear from_str l r)
  unfolding hear
  hear-Relayed from_str l r i = elim (Bool-cases (is_empty (trim l))) [
    | inl e ↦ rw e i
    | inr e ↦ rw e (record {
      channel_run = next (some (from_str l)) i.channel_run (reads (from_str l));
      in_order =
          i.in_order ∙ ap (λ q. frames r.log ++ q) (sym (queue-handle_line (from_str l) r.channel));
      by_peer = i.by_peer;
      one_each = i.one_each;
    })
  ]

  logged-Relayed :
      (f : Fate) (r : Relay)
      → r.stage ≡ Stage.writing
      → r.channel.queue ≡ frame f ∷ (pop r.channel.queue).1
      → Relayed query entered lines r
      → Relayed query entered lines (logged f r)
  unfolding recv
  logged-Relayed f r e q i = record {
    channel_run = next none i.channel_run writes;
    in_order =
        i.in_order
        ∙ (ap (λ l. frames r.log ++ l) q
            ∙ sym (append_assoc (frames r.log) (frame f ∷ []) (pop r.channel.queue).1));
    by_peer = (
      (subst (λ s. Follows (next_peer s r.peer) r.log) e i.by_peer.1, i.by_peer.0),
      Follows-after f r.reading r.peer r.log,
    );
    one_each =
        losses-after f r.reading r.peer r.log
        ∙ subst (λ s. losses r.log + busy s ≡ r.peer) e i.one_each;
  }

  write-Relayed :
      (to_string : Outbound → Option Str) (answer : Bool) (r : Relay)
      → Relayed query entered lines r
      → Relayed query entered lines (write to_string answer r)
  unfolding write recv
  write-Relayed to_string answer r i = at_stage r.stage refl
    where
      at_frame :
          (o : Option Outbound)
          → r.stage ≡ Stage.writing
          → (pop r.channel.queue).0 ≡ o
          → Relayed query entered lines (write_next to_string answer o r)
      at_frame none e h = i
      at_frame (some f) e h =
          logged-Relayed (fate (to_string f) answer f) r e
            (queue-pop r.channel.queue f h
              ∙ ap (λ g. g ∷ (pop r.channel.queue).1) (sym (frame-fate (to_string f) answer f)))
            i

      at_stage :
          (s : Stage) → r.stage ≡ s → Relayed query entered lines (write_at to_string answer s r)
      at_stage Stage.writing e = at_frame (pop r.channel.queue).0 e refl
      at_stage Stage.accepting e = i
      at_stage Stage.draining e = i

module _ (to_string : Outbound → Option Str) (from_str : Str → Option Inbound)
    (query : ℕ → Query) where
  -- Whatever peers come and go, and however their lines, the writes and the calls interleave: the
  -- channel only makes steps of its parties; every frame that entered the buffer reached the writer
  -- in the order of entering, once, or is still in the buffer; the frames are sent to one peer after
  -- the other, and each peer that is no longer served cost exactly one frame, the last one written
  -- for it, while no other frame is lost.
  pub Serves-Relayed :
      {entered : List Outbound} {lines : List (Option Inbound)} {r : Relay}
      → Serves to_string from_str query entered lines r
      → Relayed query entered lines r
  unfolding accept
  Serves-Relayed begins = record {
    channel_run = here;
    in_order = refl;
    by_peer = (tt, tt);
    one_each = refl;
  }
  Serves-Relayed (acts {r = r} v s o) = acts-Relayed r s o (Serves-Relayed v)
  Serves-Relayed (connects {r = r} v) = accept_at-Relayed r.stage r refl (Serves-Relayed v)
  Serves-Relayed (takes {r = r} answer v) = write-Relayed to_string answer r (Serves-Relayed v)
  Serves-Relayed (hears {r = r} l reading v) = hear-Relayed from_str l r (Serves-Relayed v)
  Serves-Relayed (closes {r = r} v) = end_reading-Relayed r (Serves-Relayed v)
