-- ===== src/Conn/Handle/Buffer.antt =====
-- The handler and the control channel together: which of a connection's events enter the buffer.
use condukt.Prelude.{
  ℕ, zero, suc, ◌-◌, ◌≤◌, ◌≡◌, refl, sym, ap, ◌∙◌, Bool, true, false, List, [], ◌∷◌, ◌++◌, ltb,
  if◌then◌else◌, length, length-append, append-nil, append_assoc, arith,
}
use condukt.Event.{Event, Outbound}
use condukt.H2
use condukt.Policy.{Policy}
use condukt.Control.{buffer_cap, Channel, try_send, emit}
use condukt.Conn.Handle.{Answers, Effect, emits, asks, shuts_down, transfers, handle}

-- the events that the streams of an HTTP/2 connection emitted, in order
abbrev pub stream_events : List (ℕ × H2.Effect) → List Event
stream_events [] = []
stream_events ((t, H2.emits e) ∷ rest) = e ∷ stream_events rest
stream_events ((t, H2.sends_request) ∷ rest) = stream_events rest
stream_events ((t, H2.responds status) ∷ rest) = stream_events rest

-- all events of a connection, in order
abbrev pub events : List Effect → List Event
events [] = []
events (emits e ∷ rest) = e ∷ events rest
events (asks q timeout ∷ rest) = events rest
events (shuts_down ∷ rest) = events rest
events (transfers calls t ∷ rest) = stream_events t.streams ++ events rest

-- the channel after the events, while no peer takes a frame
abbrev pub emit_all : List Event → Channel → Channel
emit_all [] c = c
emit_all (e ∷ es) c = emit_all es (emit e c)

abbrev pub take : ℕ → List Event → List Outbound
take zero es = []
take (suc n) [] = []
take (suc n) (e ∷ es) = Outbound.event e ∷ take n es

take_nil : (n : ℕ) → take n [] ≡ []
take_nil zero = refl
take_nil (suc n) = refl

take_more :
    (e : Event) (es : List Event) (n m : ℕ)
    → m ≡ suc n
    → Outbound.event e ∷ take n es ≡ take m (e ∷ es)
take_more e es n m h = rw h refl

take_same : (e : Event) (es : List Event) (m : ℕ) → m ≡ 0 → take m es ≡ take m (e ∷ es)
take_same e es m h = rw h refl

-- one event, in front of the others
queue_of_event :
    (e : Event) (es : List Event) (q : List Outbound)
    → (try_send (Outbound.event e) q).0
        ++ take (buffer_cap - length (try_send (Outbound.event e) q).0) es
      ≡ q ++ take (buffer_cap - length q) (e ∷ es)
unfolding try_send
queue_of_event e es q = by_room (ltb (length q) buffer_cap) refl
  where
    grown : List Outbound
    grown = q ++ Outbound.event e ∷ []

    by_room :
        (b : Bool)
        → ltb (length q) buffer_cap ≡ b
        → (if◌then◌else◌ {A = List Outbound × Bool} b (grown, true) (q, false)).0
            ++ take
                (buffer_cap
                  - length (if◌then◌else◌ {A = List Outbound × Bool} b (grown, true) (q, false)).0)
                es
          ≡ q ++ take (buffer_cap - length q) (e ∷ es)
    by_room true h =
        append_assoc q (Outbound.event e ∷ []) _
        ∙ ap (λ l. q ++ l)
            (take_more e es (buffer_cap - length grown) (buffer_cap - length q)
              (ground (arith, h, length-append q (Outbound.event e ∷ []))))
    by_room false h = ap (λ l. q ++ l) (take_same e es (buffer_cap - length q) (ground (arith, h)))

queue-emit_all :
    (es : List Event) (c : Channel)
    → (emit_all es c).queue ≡ c.queue ++ take (buffer_cap - length c.queue) es
unfolding emit
queue-emit_all [] c =
    sym (ap (λ l. c.queue ++ l) (take_nil (buffer_cap - length c.queue)) ∙ append-nil c.queue)
queue-emit_all (e ∷ es) c = queue-emit_all es (emit e c) ∙ queue_of_event e es c.queue

length-take : (n : ℕ) (es : List Event) → length (take n es) ≤ n
length-take zero es = omega arith
length-take (suc n) [] = omega arith
length-take (suc n) (e ∷ es) = omega (arith, length-take n es)

-- What the events of one connection do to the buffer while no peer takes a frame: those for which
-- there is room enter at its end, in the connection's order and from the first one on, the rest is
-- dropped, and the buffer keeps its bound.
pub handle_buffered :
    (a : Answers) (p : Policy) (c : Channel)
    → length c.queue ≤ buffer_cap
    → ((emit_all (events (handle a p)) c).queue
        ≡ c.queue ++ take (buffer_cap - length c.queue) (events (handle a p)))
      × (length (emit_all (events (handle a p)) c).queue ≤ buffer_cap)
handle_buffered a p c h =
    let es = events (handle a p) in
    let q = queue-emit_all es c in
    (
      q,
      rw q (
          ground (
            arith,
            length-append c.queue (take (buffer_cap - length c.queue) es),
            length-take (buffer_cap - length c.queue) es,
            h,
          )),
    )
