-- ===== src/Control/Answers.antt =====
-- Where the answers of the calls come from.
use condukt.Prelude.{
  ℕ, ◌≡◌, refl, List, [], ◌∷◌, Option, none, some, Str, ◌==◌, ==_iff, Any, arith, Bool-cases, inl,
  inr,
}
use condukt.Prelude.Map
use condukt.Prelude.Map.{get-remove, get-insert}
use condukt.Event.{Inbound}
use condukt.Control.{
  Decision, Query, Phase, Channel, start, emit, register, send, receive, give_up, resolve,
  handle_line, recv, clean,
}
use condukt.Control.Steps.{
  Step, emits, registers, sends, receives, gives_up, cleans, reads, writes, heard, Run, here, next,
  Inv, Run-Inv,
}

-- One of the lines is a decision for this identifier with this content.
abbrev pub Answered : List (Option Inbound) → Str → Decision → Type 0
Answered lines id d = Any (λ l. l ≡ some (Inbound.decision id d.action d.reason)) lines

record Sourced (lines : List (Option Inbound)) (c : Channel) : Type 0 where
  stored : (t : ℕ) (d : Decision) → c.slot t ≡ some d → Answered lines (c.query t).id d
  returned :
      (t : ℕ) (d : Decision) → c.phase t ≡ Phase.returned (some d) → Answered lines (c.query t).id d

resolve-Sourced :
    {lines : List (Option Inbound)} {c : Channel} (id : Str) (d : Decision) (o : Option ℕ)
    → Map.get id c.pending ≡ o
    → Inv c
    → Sourced lines c
    → Sourced (some (Inbound.decision id d.action d.reason) ∷ lines) (resolve id d o c)
resolve-Sourced id d none e i s = record {
  stored = λ u d' h. inr (s.stored u d' h);
  returned = λ u d' h. inr (s.returned u d' h);
}
resolve-Sourced {lines} {c} id d (some t) e i s = record {
  stored = λ u d' h. elim (Bool-cases (u == t)) [
    | inl same ↦ inl (ground (arith, i.entries id t e, ==_iff u t))
    | inr other ↦ inr (s.stored u d' (ground arith))
  ];
  returned = λ u d' h. inr (s.returned u d' h);
}

handle_line-Sourced :
    {lines : List (Option Inbound)} {c : Channel} (line : Option Inbound)
    → Inv c
    → Sourced lines c
    → Sourced (line ∷ lines) (handle_line line c)
unfolding handle_line
handle_line-Sourced none i s = record {
  stored = λ u d h. inr (s.stored u d h);
  returned = λ u d h. inr (s.returned u d h);
}
handle_line-Sourced (some Inbound.unknown) i s = record {
  stored = λ u d h. inr (s.stored u d h);
  returned = λ u d h. inr (s.returned u d h);
}
handle_line-Sourced {c} (some (Inbound.decision id action reason)) i s =
    resolve-Sourced id (record { action = action; reason = reason }) (Map.get id c.pending) refl i s

-- A step of a party other than the reader that leaves the slots, and by which a call returns only
-- what its slot holds.
module _ {lines : List (Option Inbound)} {c : Channel} (t : ℕ) (s : Sourced lines c) where
  register-Sourced : Sourced lines (register t c)
  unfolding register
  register-Sourced = record {
    stored = λ u d h. s.stored u d h;
    returned = λ u d h. s.returned u d (ground arith);
  }

  send-Sourced : Sourced lines (send t c)
  unfolding send
  send-Sourced = record {
    stored = λ u d h. s.stored u d h;
    returned = λ u d h. s.returned u d (ground arith);
  }

  give_up-Sourced : Sourced lines (give_up t c)
  unfolding give_up
  give_up-Sourced = record {
    stored = λ u d h. s.stored u d h;
    returned = λ u d h. s.returned u d (ground arith);
  }

  clean-Sourced : Sourced lines (clean t c)
  unfolding clean
  clean-Sourced = record {
    stored = λ u d h. s.stored u d h;
    returned = λ u d h. s.returned u d (ground arith);
  }

  receive-Sourced : (d : Decision) → c.slot t ≡ some d → Sourced lines (receive t d c)
  unfolding receive
  receive-Sourced d e = record {
    stored = λ u d' h. s.stored u d' h;
    returned = λ u d' h. elim (Bool-cases (u == t)) [
      | inl same ↦ s.stored u d' (ground (arith, ==_iff u t))
      | inr other ↦ s.returned u d' (ground arith)
    ];
  }

recv-Sourced :
    {lines : List (Option Inbound)} {c : Channel} → Sourced lines c → Sourced lines (recv c).1
unfolding recv
recv-Sourced s = record { stored = s.stored; returned = s.returned }

Step-Sourced :
    {lines : List (Option Inbound)} {c d : Channel} {label : Option (Option Inbound)}
    → Step c label d
    → Inv c
    → Sourced lines c
    → Sourced (heard label lines) d
Step-Sourced (emits e) i s = unfold emit in record { stored = s.stored; returned = s.returned }
Step-Sourced (registers t p) i s = register-Sourced t s
Step-Sourced (sends t p) i s = send-Sourced t s
Step-Sourced (receives t d p e) i s = receive-Sourced t s d e
Step-Sourced (gives_up t p e) i s = give_up-Sourced t s
Step-Sourced (cleans t p) i s = clean-Sourced t s
Step-Sourced (reads line) i s = handle_line-Sourced line i s
Step-Sourced {c} writes i s = recv-Sourced s

start-Sourced : (query : ℕ → Query) → Sourced [] (start query)
start-Sourced query = record { stored = λ t d h. cc; returned = λ t d h. cc }

Run-Sourced :
    {query : ℕ → Query} {lines : List (Option Inbound)} {c : Channel}
    → Run query lines c
    → Sourced lines c
Run-Sourced {query} here = start-Sourced query
Run-Sourced (next label r s) = Step-Sourced s (Run-Inv r) (Run-Sourced r)

-- Whatever the interleaving of calls, reader, writer and events, a call that returned a decision
-- returned one that a line of the peer carried for the call's own identifier, unchanged.
pub returned-Answered :
    {query : ℕ → Query} {lines : List (Option Inbound)} {c : Channel} (t : ℕ) (d : Decision)
    → Run query lines c
    → c.phase t ≡ Phase.returned (some d)
    → Answered lines (c.query t).id d
returned-Answered t d r h = (Run-Sourced r).returned t d h
