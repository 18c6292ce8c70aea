-- ===== src/Control/Steps.antt =====
-- The interleavings of calls, the reader, the writer and emitted events, and what they preserve.
use condukt.Prelude.{
  ℕ, ◌≤◌, ◌≡◌, refl, List, [], ◌∷◌, Option, none, some, Str, ==_iff, length, length-append, arith,
  str_eq_iff,
}
use condukt.Prelude.Map
use condukt.Prelude.Map.{Map, get-remove, get-insert}
use condukt.Event.{Event, Outbound, Inbound}
use condukt.Control.{
  buffer_cap, Decision, Query, Phase, Channel, start, try_send, emit, register, send, receive,
  give_up, resolve, handle_line, pop, recv, clean,
}

-- One step of one party. The lines that the reader handles label the step.
pub data Step : Channel → Option (Option Inbound) → Channel → Type 0 where
  emits : {c : Channel} (e : Event) → Step c none (emit e c)
  registers : {c : Channel} (t : ℕ) → c.phase t ≡ Phase.starting → Step c none (register t c)
  sends : {c : Channel} (t : ℕ) → c.phase t ≡ Phase.registered → Step c none (send t c)
  receives :
      {c : Channel} (t : ℕ) (d : Decision)
      → c.phase t ≡ Phase.waiting
      → c.slot t ≡ some d
      → Step c none (receive t d c)
  gives_up :
      {c : Channel} (t : ℕ)
      → c.phase t ≡ Phase.waiting
      → c.slot t ≡ none
      → Step c none (give_up t c)
  cleans : {c : Channel} (t : ℕ) → c.phase t ≡ Phase.cleaning → Step c none (clean t c)
  reads : {c : Channel} (line : Option Inbound) → Step c (some line) (handle_line line c)
  writes : {c : Channel} → Step c none (recv c).1

abbrev pub heard : Option (Option Inbound) → List (Option Inbound) → List (Option Inbound)
heard none lines = lines
heard (some line) lines = line ∷ lines

-- A run from the start, with the lines handled so far, the latest first.
pub data Run (query : ℕ → Query) : List (Option Inbound) → Channel → Type 0 where
  here : Run query [] (start query)
  next :
      {lines : List (Option Inbound)} {c d : Channel} (label : Option (Option Inbound))
      → Run query lines c
      → Step c label d
      → Run query (heard label lines) d

-- A call may still have its entry in the map.
abbrev pub IsOpen : Phase → Type 0
IsOpen Phase.starting = ⊥
IsOpen Phase.registered = Unit
IsOpen Phase.waiting = Unit
IsOpen Phase.cleaning = Unit
IsOpen (Phase.returned r) = ⊥

pub record Inv (c : Channel) : Type 0 where
  -- an entry belongs to an open call with that identifier, which has no decision yet
  pub entries :
      (k : Str) (t : ℕ)
      → Map.get k c.pending ≡ some t
      → ((c.query t).id ≡ k) × IsOpen (c.phase t) × (c.slot t ≡ none)
  -- a call that has not begun has no decision
  pub fresh : (t : ℕ) → c.phase t ≡ Phase.starting → c.slot t ≡ none
  pub bounded : length c.queue ≤ buffer_cap

try_send_bounded :
    (f : Outbound) (q : List Outbound)
    → length q ≤ buffer_cap
    → length (try_send f q).0 ≤ buffer_cap
unfolding try_send
try_send_bounded f q h = ground (arith, length-append q (f ∷ []))

emit-Inv : {c : Channel} (e : Event) → Inv c → Inv (emit e c)
unfolding emit
emit-Inv {c} e i = record {
  entries = i.entries;
  fresh = i.fresh;
  bounded = try_send_bounded (Outbound.event e) c.queue i.bounded;
}

register-Inv : {c : Channel} (t : ℕ) → c.phase t ≡ Phase.starting → Inv c → Inv (register t c)
unfolding register
register-Inv {c} t p i = record {
  entries = λ k u h. ground (
    arith,
    get-insert (c.query t).id k t c.pending,
    str_eq_iff (c.query t).id k,
    i.entries k u,
    i.fresh t p,
  );
  fresh = λ u h. ground (arith, i.fresh u);
  bounded = i.bounded;
}

send-Inv : {c : Channel} (t : ℕ) → c.phase t ≡ Phase.registered → Inv c → Inv (send t c)
unfolding send
send-Inv {c} t p i = record {
  entries = λ k u h. ground (arith, i.entries k u);
  fresh = λ u h. ground (arith, i.fresh u);
  bounded = try_send_bounded _ c.queue i.bounded;
}

receive-Inv : {c : Channel} (t : ℕ) (d : Decision) → c.slot t ≡ some d → Inv c → Inv (receive t d c)
unfolding receive
receive-Inv {c} t d s i = record {
  entries = λ k u h. ground (arith, i.entries k u, ==_iff u t);
  fresh = λ u h. ground (arith, i.fresh u);
  bounded = i.bounded;
}

give_up-Inv : {c : Channel} (t : ℕ) → Inv c → Inv (give_up t c)
unfolding give_up
give_up-Inv {c} t i = record {
  entries = λ k u h. ground (arith, i.entries k u);
  fresh = λ u h. ground (arith, i.fresh u);
  bounded = i.bounded;
}

clean-Inv : {c : Channel} (t : ℕ) → Inv c → Inv (clean t c)
unfolding clean
clean-Inv {c} t i = record {
  entries = λ k u h. ground (
    arith,
    get-remove (c.query t).id k c.pending,
    str_eq_iff (c.query t).id k,
    i.entries k u,
    ==_iff u t,
  );
  fresh = λ u h. ground (arith, i.fresh u);
  bounded = i.bounded;
}

resolve-Inv :
    {c : Channel} (id : Str) (d : Decision) (o : Option ℕ)
    → Map.get id c.pending ≡ o
    → Inv c
    → Inv (resolve id d o c)
resolve-Inv id d none e i = i
resolve-Inv {c} id d (some t) e i = record {
  entries = λ k u h. ground (
    arith,
    get-remove id k c.pending,
    str_eq_iff id k,
    i.entries k u,
    i.entries id t,
    ==_iff u t,
  );
  fresh = λ u h. ground (arith, i.fresh u, i.entries id t e, ==_iff u t);
  bounded = i.bounded;
}

handle_line-Inv : {c : Channel} (line : Option Inbound) → Inv c → Inv (handle_line line c)
unfolding handle_line
handle_line-Inv none i = i
handle_line-Inv (some Inbound.unknown) i = i
handle_line-Inv {c} (some (Inbound.decision id action reason)) i =
    resolve-Inv id _ (Map.get id c.pending) refl i

pop_bounded : (q : List Outbound) → length q ≤ buffer_cap → length (pop q).1 ≤ buffer_cap
pop_bounded [] h = h
pop_bounded (f ∷ q) h = omega arith

recv-Inv : {c : Channel} → Inv c → Inv (recv c).1
unfolding recv
recv-Inv {c} i = record {
  entries = i.entries;
  fresh = i.fresh;
  bounded = pop_bounded c.queue i.bounded;
}

pub Step-Inv : {c d : Channel} {label : Option (Option Inbound)} → Step c label d → Inv c → Inv d
Step-Inv (emits e) i = emit-Inv e i
Step-Inv (registers t p) i = register-Inv t p i
Step-Inv (sends t p) i = send-Inv t p i
Step-Inv (receives t d p s) i = receive-Inv t d s i
Step-Inv (gives_up t p s) i = give_up-Inv t i
Step-Inv (cleans t p) i = clean-Inv t i
Step-Inv (reads line) i = handle_line-Inv line i
Step-Inv writes i = recv-Inv i

start-Inv : (query : ℕ → Query) → Inv (start query)
unfolding Map.get
start-Inv query = record {
  entries = λ k t h. absurd (ground arith);
  fresh = λ t h. refl;
  bounded = omega arith;
}

pub Run-Inv :
    {query : ℕ → Query} {lines : List (Option Inbound)} {c : Channel} → Run query lines c → Inv c
Run-Inv {query} here = start-Inv query
Run-Inv (next label r s) = Step-Inv s (Run-Inv r)
