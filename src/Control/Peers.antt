-- ===== src/Control/Peers.antt =====
-- `accept_loop`: the peers that the control channel serves one after the other. The loop is cut at
-- its waits: for a peer, for a frame and its write, and for the end of the reader, which runs beside
-- it. The sockets and the JSON library answer as arguments.
pub mod History
pub mod Order
use condukt.Prelude.{
  ℕ, suc, Bool, true, false, List, [], ◌∷◌, Option, none, some, Str, if◌then◌else◌, is_empty,
}
use condukt.Prelude.Bytes.{trim}
use condukt.Event.{Outbound, Inbound}
use condukt.Control.{Channel, handle_line, pop, recv}

-- Where the loop stands: at `accept`, in `write_loop`, or at the end of the reader of the last peer.
pub data Stage : Type 0 where
  accepting : Stage
  writing : Stage
  draining : Stage

-- what became of a frame
pub data Fate : Type 0 where
  sent : Outbound → Fate
  skipped : Outbound → Fate
  lost : Outbound → Fate

-- Peers are numbered from 1, and `peer` is the last one that was accepted. `reading` tells whether
-- its reader runs. `log` has the frames that left the buffer, with their peer, the latest first.
pub record Relay : Type 0 where
  pub channel : Channel
  pub stage : Stage
  pub peer : ℕ
  pub reading : Bool
  pub log : List (ℕ × Fate)

abbrev pub start_relay : Channel → Relay
start_relay c = record { channel = c; stage = Stage.accepting; peer = 0; reading = false; log = [] }

abbrev pub accept_at : Stage → Relay → Relay
accept_at Stage.accepting r = record r { stage = Stage.writing; peer = suc r.peer; reading = true }
accept_at Stage.writing r = r
accept_at Stage.draining r = r

-- A peer connects: a busy loop leaves it waiting.
unfoldable pub accept : Relay → Relay
accept r = accept_at r.stage r

abbrev pub fate : Option Str → Bool → Outbound → Fate
fate none answer frame = skipped frame
fate (some json) true frame = sent frame
fate (some json) false frame = lost frame

-- `let _ = read_task.await`
abbrev pub drained : Bool → Stage
drained true = Stage.draining
drained false = Stage.accepting

abbrev pub stage_after : Fate → Bool → Stage
stage_after (sent frame) reading = Stage.writing
stage_after (skipped frame) reading = Stage.writing
stage_after (lost frame) reading = drained reading

abbrev pub logged : Fate → Relay → Relay
logged f r = record r {
  channel = (recv r.channel).1;
  stage = stage_after f r.reading;
  log = (r.peer, f) ∷ r.log;
}

-- one round of `write_loop`, which waits where the buffer is empty
abbrev pub write_next : (Outbound → Option Str) → Bool → Option Outbound → Relay → Relay
write_next to_string answer none r = r
write_next to_string answer (some frame) r = logged (fate (to_string frame) answer frame) r

abbrev pub write_at : (Outbound → Option Str) → Bool → Stage → Relay → Relay
write_at to_string answer Stage.writing r = write_next to_string answer (recv r.channel).0 r
write_at to_string answer Stage.accepting r = r
write_at to_string answer Stage.draining r = r

unfoldable pub write : (Outbound → Option Str) → Bool → Relay → Relay
unfolding recv
write to_string answer r = write_at to_string answer r.stage r

-- one round of `read_loop`: a line, which is handled unless it is blank
unfoldable pub hear : (Str → Option Inbound) → Str → Relay → Relay
unfolding handle_line trim
hear from_str l r =
    if is_empty (trim l) then r else record r { channel = handle_line (from_str l) r.channel }

abbrev pub stage_at_end : Stage → Stage
stage_at_end Stage.accepting = Stage.accepting
stage_at_end Stage.writing = Stage.writing
stage_at_end Stage.draining = Stage.accepting

-- `read_loop` returns, at the end of its stream or at a failed read
unfoldable pub end_reading : Relay → Relay
end_reading r = record r { stage = stage_at_end r.stage; reading = false }
