-- ===== src/Control/Tests.antt =====
-- One call that is answered, step by step, and the theorems at it.
use condukt.Prelude.{
  ℕ, ◌≤◌, ◌≡◌, ◌≢◌, refl, [], ◌∷◌, Option, none, some, Str, codes, length, arith, true, false, List,
}
use condukt.Prelude.Map
use condukt.Event.{DecisionAction, Inbound, Outbound}
use condukt.Control.{
  Decision, Query, Phase, Channel, start, try_send, register, send, receive, handle_line, recv,
  frame_of,
}
use condukt.Control.Loops.{newline, write_loop}
use condukt.Control.Peers.{Relay, start_relay, accept, write, end_reading, sent, lost}
use condukt.Control.Peers.History.{Serves, begins, acts, connects, takes, closes, Relayed}
use condukt.Control.Peers.Order.{Serves-Relayed}
use condukt.Control.Steps.{IsOpen, Run, here, next, registers, sends, reads, receives}
use condukt.Control.Returns.{Run-no_leak}
use condukt.Control.Termination.{IsLive, call_terminates}
use condukt.Control.Delivery.{HasDistinctIds, Delivered, handle_line-Delivered}
use condukt.Control.Waiting.{Later, now, and_then, Served, handle_line-Served}

-- the identifier of call `t` is the one character `t`
abbrev query : ℕ → Query
query t = record {
  id = t ∷ [];
  session_id = none;
  host = codes "example.org";
  port = 443;
  scheme = codes "https";
}

query-HasDistinctIds : HasDistinctIds query
query-HasDistinctIds t u e = ground (arith, e)

abbrev allowance : Decision
allowance = record { action = DecisionAction.allow; reason = none }

abbrev line : Option Inbound
line = some (Inbound.decision (7 ∷ []) DecisionAction.allow none)

abbrev asked : Channel
asked = send 7 (register 7 (start query))

waits : asked.phase 7 ≡ Phase.waiting
unfolding send register
waits = refl

no_decision_yet : asked.slot 7 ≡ none
unfolding send register
no_decision_yet = refl

waiting-Run : Run query [] asked
unfolding register
waiting-Run = next none (next none here (registers 7 refl)) (sends 7 refl)

abbrev answered : Channel
answered = handle_line line asked

is_answered : answered.slot 7 ≡ some allowance
unfolding handle_line send register Map.get Map.insert
is_answered = refl

still_waits : answered.phase 7 ≡ Phase.waiting
unfolding handle_line send register Map.get Map.insert
still_waits = refl

returned-Run : Run query (line ∷ []) (receive 7 allowance answered)
returned-Run =
    next none (next (some line) waiting-Run (reads line))
      (receives 7 allowance still_waits is_answered)

has_returned : (receive 7 allowance answered).phase 7 ≡ Phase.returned (some allowance)
unfolding receive
has_returned = refl

-- the frame of the request is the first that the writer takes
frame_first : length (recv asked).1.queue ≡ 0
unfolding recv send register try_send
frame_first = refl

Run-no_leak_example :
    ((t : ℕ) (r : Option Decision) (k : Str)
      → (receive 7 allowance answered).phase t ≡ Phase.returned r
      → Map.get k (receive 7 allowance answered).pending ≢ some t)
    × ((t : ℕ) (k : Str)
        → Map.get k (receive 7 allowance answered).pending ≡ some t
        → (((receive 7 allowance answered).query t).id ≡ k)
          × IsOpen ((receive 7 allowance answered).phase t))
    × (length (receive 7 allowance answered).queue ≤ 1024)
Run-no_leak_example = Run-no_leak returned-Run

handle_line-Delivered_example :
    Delivered 7 allowance asked
      (handle_line (some (Inbound.decision (asked.query 7).id DecisionAction.allow none)) asked)
handle_line-Delivered_example =
    handle_line-Delivered 7 allowance query-HasDistinctIds waiting-Run waits no_decision_yet

-- call 7 takes the decision that was read
taken :
    Later 7
      (handle_line (some (Inbound.decision (asked.query 7).id DecisionAction.allow none)) asked)
      1
      (receive 7 allowance answered)
unfolding send register
taken = and_then now (receives 7 allowance still_waits is_answered)

handle_line-Served_example : Served 7 allowance 1 (receive 7 allowance answered)
handle_line-Served_example =
    handle_line-Served 7 allowance query-HasDistinctIds waiting-Run waits no_decision_yet taken

-- from its beginning, with a line that does not parse in between
until_asked : Later 7 (start query) 2 asked
unfolding register handle_line
until_asked = and_then (and_then (and_then now (registers 7 refl)) (reads none)) (sends 7 refl)

call_terminates_example :
    (2 ≤ 4)
    × (◌≡◌ {A = ℕ} 2 4 → (r : Option Decision) × (asked.phase 7 ≡ Phase.returned r))
    × IsLive 7 asked
call_terminates_example = call_terminates 7 until_asked

-- every frame has an empty JSON form
abbrev to_string : Outbound → Option Str
to_string frame = some []

abbrev frames : List Outbound
frames = frame_of (query 1) ∷ frame_of (query 2) ∷ frame_of (query 3) ∷ []

second_is_lost : write_loop to_string frames (true ∷ false ∷ []) ≡ record {
  lines = (newline ∷ []) ∷ [];
  lost = some (frame_of (query 2));
  left = frame_of (query 3) ∷ [];
}
unfolding write_loop
second_is_lost = refl

-- every line is the decision that the call waits for
abbrev from_str : Str → Option Inbound
from_str text = line

-- Call 1 asks, its frame is sent to the first peer; the frame of call 2 is lost with that peer, and
-- a second one connects.
abbrev first_served : Relay
first_served =
    write to_string true
      (accept (record (start_relay (start query)) { channel = send 1 (register 1 (start query)) }))

abbrev second_asked : Relay
second_asked = record first_served { channel = send 2 (register 2 first_served.channel) }

abbrev second_served : Relay
second_served = accept (end_reading (write to_string false second_asked))

two_peers :
    Serves to_string from_str query (frame_of (query 1) ∷ frame_of (query 2) ∷ []) [] second_served
unfolding accept end_reading write recv send register try_send
two_peers = connects (
    closes (
      takes false (
        acts
          (acts (takes true (connects (acts (acts begins (registers 1 refl) tt) (sends 1 refl) tt)))
            (registers 2 refl) tt)
          (sends 2 refl) tt)))

Serves-Relayed_example :
    Relayed query (frame_of (query 1) ∷ frame_of (query 2) ∷ []) [] second_served
Serves-Relayed_example = Serves-Relayed to_string from_str query two_peers

log_of_two :
    second_served.log ≡ (1, lost (frame_of (query 2))) ∷ (1, sent (frame_of (query 1))) ∷ []
unfolding accept end_reading write recv send register try_send
log_of_two = refl
