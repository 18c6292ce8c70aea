-- ===== src/Control/Loops.antt =====
-- `read_loop` and `write_loop`, with what the socket and the JSON library do as arguments.
pub mod Frames
use condukt.Prelude.{
  ℕ, suc, ◌≤◌, ◌≡◌, ◌⊎◌, inl, inr, refl, sym, ap, ◌∙◌, Bool, true, false, List, [], ◌∷◌, ◌++◌,
  Option, none, some, Str, codes, if◌then◌else◌, is_empty, append_assoc,
}
use condukt.Prelude.Bytes.{trim}
use condukt.Event.{Outbound, Inbound}
use condukt.Control.{Channel, handle_line}

-- one result of `next_line`; the end of the list is the end of the stream
pub data LineRead : Type 0 where
  line : Str → LineRead
  failed : Str → LineRead

unfoldable pub read_loop : (Str → Option Inbound) → List LineRead → Channel → Channel
unfolding handle_line trim
read_loop from_str [] c = c
read_loop from_str (failed e ∷ rest) c = c
read_loop from_str (line l ∷ rest) c =
    let skipped = read_loop from_str rest c in
    let handled = read_loop from_str rest (handle_line (from_str l) c) in
    if is_empty (trim l) then skipped else handled

-- What the write loop leaves: the lines that were written, the frame whose write failed, and the
-- frames that stay in the buffer. It waits where `lost` is none and `left` is empty.
pub record Written : Type 0 where
  pub lines : List Str
  pub lost : Option Outbound
  pub left : List Outbound

abbrev pub newline : ℕ
newline = 10

abbrev pub wrote : Str → Written → Written
wrote l w = record w { lines = l ∷ w.lines }

-- One round: the JSON form of the frame, the answers to the writes, the frame, those behind it, and
-- how the loop goes on.
abbrev pub write_frame :
    Option Str → List Bool → Outbound → List Outbound → (List Bool → Written) → Written
write_frame none writes frame rest onward = onward writes
write_frame (some json) [] frame rest onward = wrote (json ++ newline ∷ []) (onward [])
write_frame (some json) (true ∷ more) frame rest onward = wrote (json ++ newline ∷ []) (onward more)
write_frame (some json) (false ∷ more) frame rest onward = record {
  lines = [];
  lost = some frame;
  left = rest;
}

-- The loop on the frames of the buffer, with an answer to each write; a write past the end of the
-- answers succeeds.
unfoldable pub write_loop : (Outbound → Option Str) → List Outbound → List Bool → Written
write_loop to_string [] writes = record { lines = []; lost = none; left = [] }
write_loop to_string (frame ∷ rest) writes =
    write_frame (to_string frame) writes frame rest (write_loop to_string rest)
