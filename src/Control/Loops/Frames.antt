-- ===== src/Control/Loops/Frames.antt =====
-- What reaches a peer, and what a peer's lines do.
use condukt.Prelude.{
  ℕ, ◌≡◌, refl, sym, ap, ◌∙◌, Bool, true, false, List, [], ◌∷◌, ◌++◌, Option, none, some, Str,
  if◌then◌else◌, is_empty, Bool-cases, arith, inl, inr,
}
use condukt.Prelude.Bytes.{trim}
use condukt.Event.{Outbound, Inbound}
use condukt.Control.{Query, Channel}
use condukt.Control.Steps.{Run, next, reads}
use condukt.Control.Loops.{
  LineRead, line, failed, read_loop, Written, newline, wrote, write_frame, write_loop,
}

abbrev pub add_line : Option Str → List Str → List Str
add_line none lines = lines
add_line (some json) lines = (json ++ newline ∷ []) ∷ lines

-- the lines of the frames, in order; a frame that has no JSON form has no line
abbrev pub lines_of : (Outbound → Option Str) → List Outbound → List Str
lines_of to_string [] = []
lines_of to_string (frame ∷ rest) = add_line (to_string frame) (lines_of to_string rest)

abbrev pub lost_frames : Option Outbound → List Outbound
lost_frames none = []
lost_frames (some frame) = frame ∷ []

-- The written lines are those of a beginning of the buffer, at most the next frame is lost, and the
-- rest stays; without a failed write nothing stays.
pub record InOrder (to_string : Outbound → Option Str) (frames : List Outbound) (w : Written)
    : Type 0 where
  pub taken : List Outbound
  pub splits : frames ≡ taken ++ (lost_frames w.lost ++ w.left)
  pub in_order : w.lines ≡ lines_of to_string taken
  pub all_written : w.lost ≡ none → w.left ≡ []

module _ (to_string : Outbound → Option Str) where
  InOrder-skipped :
      (frame : Outbound) (frames : List Outbound) (w : Written)
      → to_string frame ≡ none
      → InOrder to_string frames w
      → InOrder to_string (frame ∷ frames) w
  InOrder-skipped frame frames w e i = record {
    taken = frame ∷ i.taken;
    splits = ap (λ l. frame ∷ l) i.splits;
    in_order = i.in_order ∙ sym (ap (λ o. add_line o (lines_of to_string i.taken)) e);
    all_written = i.all_written;
  }

  InOrder-written :
      (frame : Outbound) (json : Str) (frames : List Outbound) (w : Written)
      → to_string frame ≡ some json
      → InOrder to_string frames w
      → InOrder to_string (frame ∷ frames) (wrote (json ++ newline ∷ []) w)
  InOrder-written frame json frames w e i = record {
    taken = frame ∷ i.taken;
    splits = ap (λ l. frame ∷ l) i.splits;
    in_order =
        ap (λ l. (json ++ newline ∷ []) ∷ l) i.in_order
        ∙ sym (ap (λ o. add_line o (lines_of to_string i.taken)) e);
    all_written = i.all_written;
  }

  InOrder-lost :
      (frame : Outbound) (frames : List Outbound)
      → InOrder to_string (frame ∷ frames) (record { lines = []; lost = some frame; left = frames })
  InOrder-lost frame frames = record {
    taken = [];
    splits = refl;
    in_order = refl;
    all_written = λ e. absurd (ground (arith, e));
  }

  -- Whatever the answers to its writes, the loop sends a peer the lines of the buffer's frames in
  -- their order, without gap or repetition; when a write fails it loses that one frame, and all later
  -- frames stay for the next peer; and when none fails all frames are sent.
  pub write_loop-InOrder :
      (frames : List Outbound) (writes : List Bool)
      → InOrder to_string frames (write_loop to_string frames writes)
  unfolding write_loop
  write_loop-InOrder [] writes = record {
    taken = [];
    splits = refl;
    in_order = refl;
    all_written = λ e. refl;
  }
  write_loop-InOrder (frame ∷ frames) writes =
      answered (to_string frame) writes refl (λ more. write_loop-InOrder frames more)
    where
      answered :
          (o : Option Str) (writes : List Bool)
          → to_string frame ≡ o
          → ((more : List Bool) → InOrder to_string frames (write_loop to_string frames more))
          → InOrder to_string
              (frame ∷ frames)
              (write_frame o writes frame frames (write_loop to_string frames))
      answered none writes e ih = InOrder-skipped frame frames _ e (ih writes)
      answered (some json) [] e ih = InOrder-written frame json frames _ e (ih [])
      answered (some json) (true ∷ more) e ih = InOrder-written frame json frames _ e (ih more)
      answered (some json) (false ∷ more) e ih = InOrder-lost frame frames

-- the lines that are handled, the latest first, in front of those before
abbrev pub heard_after :
    (Str → Option Inbound) → List LineRead → List (Option Inbound) → List (Option Inbound)
heard_after from_str [] lines = lines
heard_after from_str (failed e ∷ rest) lines = lines
heard_after from_str (line l ∷ rest) lines =
    let skipped = heard_after from_str rest lines in
    let handled = heard_after from_str rest (from_str l ∷ lines) in
    if is_empty (trim l) then skipped else handled

-- The read loop makes steps of the reader and nothing else: what it reaches from a reachable state is
-- reachable, by handling in order each line that is not blank, up to the first failed read.
pub read_loop-Run :
    {query : ℕ → Query} (from_str : Str → Option Inbound) (received : List LineRead)
    {lines : List (Option Inbound)} {c : Channel}
    → Run query lines c
    → Run query (heard_after from_str received lines) (read_loop from_str received c)
unfolding read_loop
read_loop-Run from_str [] r = r
read_loop-Run from_str (failed e ∷ rest) r = r
read_loop-Run from_str (line l ∷ rest) r = elim (Bool-cases (is_empty (trim l))) [
  | inl e ↦ rw e (read_loop-Run from_str rest r)
  | inr e ↦ rw e (read_loop-Run from_str rest (next (some (from_str l)) r (reads (from_str l))))
]
