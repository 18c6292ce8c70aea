-- ===== src/H2/Connection.antt =====
-- native/condukt_egress/src/proxy/h2.rs: one HTTP/2 connection. Streams are numbered. A call of
-- `proxy_stream` is cut at its two waits, for the lock around the upstream's sender and for the
-- upstream's answer, so that other streams may run in between; the order of the steps is a list.
-- The threads, their runtime and the crate `hyper` answer as parameters.
pub mod Trace
pub mod Line
pub mod Lock
pub mod Exclusion
pub mod Errors
pub mod Events
use condukt.Prelude.{
  ℕ, Bool, true, false, List, [], ◌∷◌, ◌++◌, Option, none, some, Str, codes, ◌==◌, if◌then◌else◌,
  ok, err,
}
use condukt.Event.{Request, request_opened, new_event}
use condukt.Conn.Outcome.{Outcome, labelled}
use condukt.H2.{
  Answers, Incoming, Effect, emits, sends_request, event_request, finish, proxy_stream,
}

-- Where a stream stands: not begun, in line for the lock, waiting for the upstream with the lock,
-- answered, or dropped by the server before it was answered.
pub data Stage : Type 0 where
  accepted : Stage
  opened : Stage
  sending : Stage
  answered : Stage
  dropped : Stage

-- `line` is the state of the lock, a `tokio::sync::Mutex`: the stream to which it is given, and behind
-- it the others that have asked for it, in the order in which they have asked. `trace` is what the
-- streams did, the oldest first.
pub record Server : Type 0 where
  pub stage : ℕ → Stage
  pub line : List ℕ
  pub trace : List (ℕ × Effect)

abbrev pub start : Server
start = record { stage = λ t. Stage.accepted; line = []; trace = [] }

-- The next step of a stream, or the end of its future, which leaves the line.
pub data Turn : Type 0 where
  polls : ℕ → Turn
  drops : ℕ → Turn

abbrev pub moved : (ℕ → Stage) → ℕ → Stage → ℕ → Stage
moved f t p u = if t == u then p else f u

-- the effects of stream `t`
abbrev pub by_stream : ℕ → List Effect → List (ℕ × Effect)
by_stream t [] = []
by_stream t (e ∷ es) = (t, e) ∷ by_stream t es

-- A stream gives the lock back, or no longer waits for it: who is then the first has it.
unfoldable pub leave : ℕ → List ℕ → List ℕ
leave t [] = []
leave t (u ∷ us) = let rest = leave t us in if u == t then rest else u ∷ rest

-- the lock is given to the stream
abbrev pub is_first : ℕ → List ℕ → Bool
is_first t [] = false
is_first t (u ∷ us) = u == t

abbrev pub dropped_from : ℕ → Server → Server
dropped_from t s = record s { stage = moved s.stage t Stage.dropped; line = leave t s.line }

abbrev pub drop_at : Stage → ℕ → Server → Server
drop_at Stage.accepted t s = dropped_from t s
drop_at Stage.opened t s = dropped_from t s
drop_at Stage.sending t s = dropped_from t s
drop_at Stage.answered t s = s
drop_at Stage.dropped t s = s

unfoldable pub drop : ℕ → Server → Server
unfolding leave
drop t s = drop_at (s.stage t) t s

-- What one connection's streams ask and get.
pub record Exchanges : Type 0 where
  pub request : ℕ → Incoming
  pub answers : ℕ → Answers

-- The answers of the outside for one connection; `none` is success and `some e` an error with its
-- text. `completes` is `false` when the thread ends without a result.
pub record Connection : Type 0 where
  pub spawn : Option Str
  pub runtime : Option Str
  pub handshake : Option Str
  pub exchanges : Exchanges
  pub turns : List Turn
  pub serve : Option Str
  pub completes : Bool

-- how a connection ends, and what its streams did
abbrev pub Ended : Type 0
Ended = Outcome (Unit {0}) × List (ℕ × Effect)

module _ (x : Exchanges) (base : Request) where
  abbrev pub request_of : ℕ → Request
  request_of t = event_request (x.answers t) (x.request t) base

  abbrev pub opens : ℕ → Effect
  opens t = emits (new_event ((x.answers t).clock 1) request_opened (request_of t))

  -- a stream begins, and asks for the lock: it has it if nobody else does, and is in line otherwise
  abbrev pub begin_at : List ℕ → ℕ → Server → Server
  begin_at [] t s = record {
    stage = moved s.stage t Stage.sending;
    line = t ∷ [];
    trace = s.trace ++ by_stream t (opens t ∷ sends_request ∷ []);
  }
  begin_at (u ∷ us) t s = record {
    stage = moved s.stage t Stage.opened;
    line = (u ∷ us) ++ t ∷ [];
    trace = s.trace ++ by_stream t (opens t ∷ []);
  }

  -- one in line goes on when the lock has been given to it
  abbrev pub go_on : Bool → ℕ → Server → Server
  go_on true t s = record s {
    stage = moved s.stage t Stage.sending;
    trace = s.trace ++ by_stream t (sends_request ∷ []);
  }
  go_on false t s = s

  abbrev pub poll_at : Stage → ℕ → Server → Server
  -- up to `sender.lock().await`
  poll_at Stage.accepted t s = begin_at s.line t s
  -- `send_request`
  poll_at Stage.opened t s = go_on (is_first t s.line) t s
  -- the upstream's answer, `drop(guard)` and the rest
  poll_at Stage.sending t s = record {
    stage = moved s.stage t Stage.answered;
    line = leave t s.line;
    trace = s.trace ++ by_stream t (finish (x.answers t) (request_of t) (x.answers t).sent);
  }
  poll_at Stage.answered t s = s
  poll_at Stage.dropped t s = s

  unfoldable pub poll : ℕ → Server → Server
  unfolding event_request leave
  poll t s = poll_at (s.stage t) t s

  unfoldable pub run : List Turn → Server → Server
  unfolding poll drop
  run [] s = s
  run (polls t ∷ rest) s = run rest (poll t s)
  run (drops t ∷ rest) s = run rest (drop t s)

abbrev pub served : Option Str → Outcome (Unit {0})
served none = ok tt
served (some e) = err (labelled (codes "client h2 serve") e)

abbrev pub after_handshake : Option Str → Connection → Request → Ended
after_handshake (some e) c base = (err (labelled (codes "upstream h2 handshake") e), [])
after_handshake none c base = (served c.serve, (run c.exchanges base c.turns start).trace)

unfoldable pub drive : Connection → Request → Ended
unfolding run
drive c base = after_handshake c.handshake c base

-- the thread: the end of its runtime, or what `drive` returns
abbrev pub in_thread : Option Str → Connection → Request → Ended
in_thread (some e) c base = (err (labelled (codes "h2 thread rt") e), [])
in_thread none c base = drive c base

-- `done_rx.await`
abbrev pub awaited : Bool → Ended → Ended
awaited true ended = ended
awaited false (o, trace) = (err (codes "h2 thread terminated without completing"), trace)

abbrev pub spawned : Option Str → Connection → Request → Ended
spawned (some e) c base = (err (labelled (codes "h2 thread spawn") e), [])
spawned none c base = awaited c.completes (in_thread c.runtime c base)

unfoldable pub handle : Connection → Request → Ended
unfolding drive
handle c base = spawned c.spawn c base
