-- ===== src/Control.antt =====
-- native/condukt_egress/src/proxy/control.rs: the control channel. A call of `request_decision`
-- is cut at its waits, so that other calls, the reader and the writer may run in between.
pub mod Steps
pub mod Answers
pub mod Returns
pub mod Delivery
pub mod Waiting
pub mod Loops
pub mod Peers
pub mod Termination
mod Tests
use condukt.Prelude.{
  ℕ, suc, ◌+◌, ◌≡◌, Bool, true, false, List, [], ◌∷◌, ◌++◌, Option, none, some, Str, ltb, ◌==◌,
  if◌then◌else◌, length,
}
use condukt.Prelude.Map
use condukt.Prelude.Map.{Map}
use condukt.Event.{Event, DecisionAction, Outbound, Inbound}

abbrev pub buffer_cap : ℕ
buffer_cap = 1024

pub record Decision : Type 0 where
  pub action : DecisionAction
  pub reason : Option Str

-- the arguments of a call of `request_decision`
pub record Query : Type 0 where
  pub id : Str
  pub session_id : Option Str
  pub host : Str
  pub port : ℕ
  pub scheme : Str

-- Where a call stands: before the first lock, before `try_send`, at the timeout, before the last
-- lock, returned.
pub data Phase : Type 0 where
  starting : Phase
  registered : Phase
  waiting : Phase
  cleaning : Phase
  returned : Option Decision → Phase

-- Calls are numbered. `slot t` is what the oneshot channel of call `t` holds, and `pending` maps an
-- identifier to the call whose sender it stores.
pub record Channel : Type 0 where
  pub queue : List Outbound
  pub pending : Map ℕ
  pub query : ℕ → Query
  pub phase : ℕ → Phase
  pub slot : ℕ → Option Decision

abbrev pub update {ℓ} : {A : Type ℓ} → (ℕ → A) → ℕ → A → ℕ → A
update f t a u = if t == u then a else f u

-- what `ControlChannel::start` sets up, for the calls to come
abbrev pub start : (ℕ → Query) → Channel
start query = record {
  queue = [];
  pending = [];
  query = query;
  phase = λ _. Phase.starting;
  slot = λ _. none;
}

-- `try_send`: `false` and no change when the buffer is full
unfoldable pub try_send : Outbound → List Outbound → List Outbound × Bool
try_send frame queue =
    if ltb (length queue) buffer_cap then (queue ++ frame ∷ [], true) else (queue, false)

unfoldable pub emit : Event → Channel → Channel
unfolding try_send
emit e c = record c { queue = (try_send (Outbound.event e) c.queue).0 }

-- `request_decision`, up to its first release of the lock
unfoldable pub register : ℕ → Channel → Channel
register t c = record c {
  pending = Map.insert (c.query t).id t c.pending;
  phase = update c.phase t Phase.registered;
}

abbrev pub frame_of : Query → Outbound
frame_of q = Outbound.decision_request q.id q.session_id q.host q.port q.scheme

-- the `try_send` of the frame: on failure the call goes on to remove its entry
unfoldable pub send : ℕ → Channel → Channel
unfolding try_send
send t c =
    let (queue, sent) = try_send (frame_of (c.query t)) c.queue in
    record c {
      queue = queue;
      phase = update c.phase t (if sent then Phase.waiting else Phase.cleaning);
    }

-- the wait ends with a decision
unfoldable pub receive : ℕ → Decision → Channel → Channel
receive t d c = record c { phase = update c.phase t (Phase.returned (some d)) }

-- the wait ends by the timeout, or because the sender is gone
unfoldable pub give_up : ℕ → Channel → Channel
give_up t c = record c { phase = update c.phase t Phase.cleaning }

-- the last lock: the entry is removed and the call returns nothing
unfoldable pub clean : ℕ → Channel → Channel
clean t c = record c {
  pending = Map.remove (c.query t).id c.pending;
  phase = update c.phase t (Phase.returned none);
}

abbrev pub resolve : Str → Decision → Option ℕ → Channel → Channel
resolve id d none c = c
resolve id d (some t) c = record c {
  pending = Map.remove id c.pending;
  slot = update c.slot t (some d);
}

-- `handle_line` on what the line parses to; `none` is a line that does not parse
unfoldable pub handle_line : Option Inbound → Channel → Channel
handle_line none c = c
handle_line (some Inbound.unknown) c = c
handle_line (some (Inbound.decision id action reason)) c =
    resolve id (record { action = action; reason = reason }) (Map.get id c.pending) c

-- `rx.recv()` of the write loop: the oldest frame leaves the buffer
abbrev pub pop : List Outbound → Option Outbound × List Outbound
pop [] = (none, [])
pop (frame ∷ rest) = (some frame, rest)

unfoldable pub recv : Channel → Option Outbound × Channel
recv c = let (frame, rest) = pop c.queue in (frame, record c { queue = rest })
