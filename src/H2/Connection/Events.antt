-- ===== src/H2/Connection/Events.antt =====
-- Every event of every stream belongs to the connection.
use condukt.Prelude.{
  ℕ, ◌≡◌, refl, ◌⊎◌, inl, inr, Bool, true, false, List, [], ◌∷◌, Option, none, some, Str, ◌==◌,
  ==_iff, if◌then◌else◌, All, All-part,
}
use condukt.Event.{Request, Kind, request_opened, request_closed}
use condukt.H2.{
  Incoming, Answers, Effect, emits, sends_request, responds, event_request, finish, proxy_stream,
}
use condukt.H2.Connection.{
  Connection, Exchanges, Turn, start, run, after_handshake, drive, in_thread, awaited, spawned,
  handle,
}
use condukt.H2.Connection.Trace.{own, run-Traced}

abbrev pub IsStreamKind : Kind → Type 0
IsStreamKind k = (k ≡ request_opened) ⊎ (k ≡ request_closed)

-- An event of a stream has the connection's session and host, and no rule.
abbrev pub IsStreamEvent : Request → Effect → Type 0
IsStreamEvent base (emits e) =
    IsStreamKind e.kind
    × (e.request.session_id ≡ base.session_id)
    × (e.request.host ≡ base.host)
    × (e.request.port ≡ base.port)
    × (e.matched_rule ≡ none)
IsStreamEvent base sends_request = Unit
IsStreamEvent base (responds status) = Unit

proxy_stream-IsStreamEvent :
    (a : Answers) (req : Incoming) (base : Request)
    → All (IsStreamEvent base) (proxy_stream a req base)
unfolding proxy_stream event_request
proxy_stream-IsStreamEvent a req base =
    ((inl refl, refl, refl, refl, refl), (tt, finish-IsStreamEvent a.sent))
  where
    finish-IsStreamEvent :
        (sent : Option ℕ) → All (IsStreamEvent base) (finish a (event_request a req base) sent)
    finish-IsStreamEvent none = ((inr refl, refl, refl, refl, refl), (tt, tt))
    finish-IsStreamEvent (some status) = ((inr refl, refl, refl, refl, refl), (tt, tt))

-- the effects of all streams together
abbrev pub ByStream : (Effect → Type 0) → ℕ × Effect → Type 0
ByStream P (t, e) = P e

All-own :
    (P : Effect → Type 0) (trace : List (ℕ × Effect))
    → ((t : ℕ) → All P (own t trace))
    → All (ByStream P) trace
All-own P [] h = tt
All-own P ((u, e) ∷ rest) h =
    (first (u == u) ((==_iff u u).1 refl) (h u), All-own P rest (λ t. later t (u == t) (h t)))
  where
    first : (same : Bool) → same ≡ true → All P (if same then e ∷ own u rest else own u rest) → P e
    first true q k = k.0
    first false q k = absurd cc

    later :
        (t : ℕ) (same : Bool)
        → All P (if same then e ∷ own t rest else own t rest)
        → All P (own t rest)
    later t true k = k.1
    later t false k = k

run-IsStreamEvent :
    (x : Exchanges) (base : Request) (turns : List Turn)
    → All (ByStream (IsStreamEvent base)) (run x base turns start).trace
run-IsStreamEvent x base turns = All-own (IsStreamEvent base) (run x base turns start).trace (λ t.
    let traced = run-Traced x base turns t start (record { todo = _; due = refl; whole = refl }) in
    All-part (IsStreamEvent base) (own t (run x base turns start).trace) traced.todo _ traced.whole
      (proxy_stream-IsStreamEvent (x.answers t) (x.request t) base))

-- However an HTTP/2 connection ends, each event that its streams emitted is `request_opened` or
-- `request_closed` with the connection's session and host and without a rule.
pub handle-IsStreamEvent :
    (c : Connection) (base : Request) → All (ByStream (IsStreamEvent base)) (handle c base).1
unfolding handle drive
handle-IsStreamEvent c base = at_spawn c.spawn
  where
    at_handshake :
        (o : Option Str) → All (ByStream (IsStreamEvent base)) (after_handshake o c base).1
    at_handshake none = run-IsStreamEvent c.exchanges base c.turns
    at_handshake (some e) = tt

    at_runtime : (o : Option Str) → All (ByStream (IsStreamEvent base)) (in_thread o c base).1
    at_runtime none = at_handshake c.handshake
    at_runtime (some e) = tt

    at_end :
        (b : Bool) → All (ByStream (IsStreamEvent base)) (awaited b (in_thread c.runtime c base)).1
    at_end true = at_runtime c.runtime
    at_end false = at_runtime c.runtime

    at_spawn : (o : Option Str) → All (ByStream (IsStreamEvent base)) (spawned o c base).1
    at_spawn none = at_end c.completes
    at_spawn (some e) = tt
