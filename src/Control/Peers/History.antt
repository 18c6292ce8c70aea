-- ===== src/Control/Peers/History.antt =====
-- What happens to the loop and its peers, and what holds of it then.
use condukt.Prelude.{
  ℕ, suc, ◌+◌, ◌≡◌, Bool, true, List, [], ◌∷◌, ◌++◌, Option, none, Str, ltb, if◌then◌else◌,
  is_empty, length,
}
use condukt.Prelude.Bytes.{trim}
use condukt.Event.{Outbound, Inbound}
use condukt.Control.{buffer_cap, Query, Channel, start, frame_of}
use condukt.Control.Steps.{
  Step, emits, registers, sends, receives, gives_up, cleans, reads, writes, Run,
}
use condukt.Control.Peers.{
  Stage, Fate, sent, skipped, lost, Relay, start_relay, accept, write, hear, end_reading,
}

-- the step is neither the reader's nor the writer's
abbrev pub IsOthers : {c d : Channel} {label : Option (Option Inbound)} → Step c label d → Type 0
IsOthers (emits e) = Unit
IsOthers (registers t p) = Unit
IsOthers (sends t p) = Unit
IsOthers (receives t d p s) = Unit
IsOthers (gives_up t p s) = Unit
IsOthers (cleans t p) = Unit
IsOthers (reads line) = ⊥
IsOthers writes = ⊥

-- the frame enters a buffer with room
abbrev pub accepted : Outbound → List Outbound → List Outbound
accepted frame queue = if ltb (length queue) buffer_cap then frame ∷ [] else []

-- the frames that enter the buffer in a step
abbrev pub entering :
    {c d : Channel} {label : Option (Option Inbound)} → Step c label d → List Outbound
entering {c} (emits e) = accepted (Outbound.event e) c.queue
entering {c} (sends t p) = accepted (frame_of (c.query t)) c.queue
entering (registers t p) = []
entering (receives t d p s) = []
entering (gives_up t p s) = []
entering (cleans t p) = []
entering (reads line) = []
entering writes = []

-- the decision lines that a line is heard as
abbrev pub heard_line : (Str → Option Inbound) → Str → List (Option Inbound) → List (Option Inbound)
heard_line from_str l lines = if is_empty (trim l) then lines else from_str l ∷ lines

-- What has happened from the start: the frames that entered the buffer, the oldest first, and the
-- lines that were handled, the latest first.
pub data Serves (to_string : Outbound → Option Str) (from_str : Str → Option Inbound)
    (query : ℕ → Query) : List Outbound → List (Option Inbound) → Relay → Type 0 where
  begins : Serves to_string from_str query [] [] (start_relay (start query))
  acts :
      {entered : List Outbound} {lines : List (Option Inbound)} {r : Relay} {c : Channel}
      → Serves to_string from_str query entered lines r
      → (s : Step r.channel none c) → IsOthers s
      → Serves to_string from_str query (entered ++ entering s) lines (record r { channel = c })
  connects :
      {entered : List Outbound} {lines : List (Option Inbound)} {r : Relay}
      → Serves to_string from_str query entered lines r
      → Serves to_string from_str query entered lines (accept r)
  takes :
      {entered : List Outbound} {lines : List (Option Inbound)} {r : Relay} (answer : Bool)
      → Serves to_string from_str query entered lines r
      → Serves to_string from_str query entered lines (write to_string answer r)
  hears :
      {entered : List Outbound} {lines : List (Option Inbound)} {r : Relay} (l : Str)
      → r.reading ≡ true
      → Serves to_string from_str query entered lines r
      → Serves to_string from_str query entered (heard_line from_str l lines) (hear from_str l r)
  closes :
      {entered : List Outbound} {lines : List (Option Inbound)} {r : Relay}
      → Serves to_string from_str query entered lines r
      → Serves to_string from_str query entered lines (end_reading r)

abbrev pub frame : Fate → Outbound
frame (sent f) = f
frame (skipped f) = f
frame (lost f) = f

-- the frames of the log, the oldest first
abbrev pub frames : List (ℕ × Fate) → List Outbound
frames [] = []
frames ((n, f) ∷ rest) = frames rest ++ frame f ∷ []

-- What stands before an entry of peer `n`: the entry before belongs to the same peer if its frame
-- was not lost, and to an earlier one if it was.
abbrev pub Follows : ℕ → List (ℕ × Fate) → Type 0
Follows n [] = Unit
Follows n ((m, sent f) ∷ rest) = m ≡ n
Follows n ((m, skipped f) ∷ rest) = m ≡ n
Follows n ((m, lost f) ∷ rest) = suc m ≡ n

abbrev pub IsLog : List (ℕ × Fate) → Type 0
IsLog [] = Unit
IsLog ((n, f) ∷ rest) = Follows n rest × IsLog rest

abbrev pub losses : List (ℕ × Fate) → ℕ
losses [] = 0
losses ((n, sent f) ∷ rest) = losses rest
losses ((n, skipped f) ∷ rest) = losses rest
losses ((n, lost f) ∷ rest) = suc (losses rest)

-- the peer being served has lost no frame yet
abbrev pub busy : Stage → ℕ
busy Stage.writing = 1
busy Stage.accepting = 0
busy Stage.draining = 0

-- the peer of the next entry
abbrev pub next_peer : Stage → ℕ → ℕ
next_peer Stage.writing n = n
next_peer Stage.accepting n = suc n
next_peer Stage.draining n = suc n

pub record Relayed (query : ℕ → Query) (entered : List Outbound) (lines : List (Option Inbound))
    (r : Relay) : Type 0 where
  -- the channel goes through steps of its parties and nothing else
  pub channel_run : Run query lines r.channel
  -- each frame that entered is in the log or in the buffer, once and in its order
  pub in_order : entered ≡ frames r.log ++ r.channel.queue
  -- a peer's entries end with a lost frame, and the next peer's follow
  pub by_peer : IsLog r.log × Follows (next_peer r.stage r.peer) r.log
  -- one frame is lost for each peer that is no longer served, and no other
  pub one_each : losses r.log + busy r.stage ≡ r.peer
