-- ===== src/Control/Delivery.antt =====
-- A decision reaches the call that waits for it, once.
use condukt.Prelude.{
  ℕ, ◌≡◌, ◌≢◌, refl, sym, subst, ◌∙◌, List, Option, none, some, Str, ==_iff, arith, str_eq_iff,
  str_eq_refl,
}
use condukt.Prelude.Map
use condukt.Prelude.Map.{map_laws, get-remove, get-insert}
use condukt.Event.{DecisionAction, Inbound}
use condukt.Control.{
  Decision, Query, Phase, Channel, emit, register, send, receive, give_up, resolve, handle_line,
  recv, clean,
}
use condukt.Control.Steps.{
  Step, emits, registers, sends, receives, gives_up, cleans, reads, writes, Run, here, next,
}

-- no two calls have one identifier
abbrev pub HasDistinctIds : (ℕ → Query) → Type 0
HasDistinctIds query = (t u : ℕ) → (query t).id ≡ (query u).id → t ≡ u

abbrev Awaits : Phase → Type 0
Awaits Phase.starting = ⊥
Awaits Phase.registered = Unit
Awaits Phase.waiting = Unit
Awaits Phase.cleaning = ⊥
Awaits (Phase.returned r) = ⊥

-- A call that awaits its decision has its entry.
record Held (c : Channel) : Type 0 where
  held : (t : ℕ) → Awaits (c.phase t) → c.slot t ≡ none → Map.get (c.query t).id c.pending ≡ some t

module _ {c : Channel} (distinct : HasDistinctIds c.query) where
  register-Held : (t : ℕ) → Held c → Held (register t c)
  unfolding register
  register-Held t h = record {
    held = λ u a s. ground (
      arith,
      get-insert (c.query t).id (c.query u).id t c.pending,
      str_eq_iff (c.query t).id (c.query u).id,
      distinct t u,
      ==_iff u t,
      h.held u,
    );
  }

  clean-Held : (t : ℕ) → Held c → Held (clean t c)
  unfolding clean
  clean-Held t h = record {
    held = λ u a s. ground (
      arith,
      get-remove (c.query t).id (c.query u).id c.pending,
      str_eq_iff (c.query t).id (c.query u).id,
      distinct t u,
      ==_iff u t,
      h.held u,
    );
  }

  resolve-Held :
      (id : Str) (d : Decision) (o : Option ℕ)
      → Map.get id c.pending ≡ o
      → Held c
      → Held (resolve id d o c)
  resolve-Held id d none e h = h
  resolve-Held id d (some t) e h = record {
    held = λ u a s. ground (
      arith,
      get-remove id (c.query u).id c.pending,
      str_eq_iff id (c.query u).id,
      ==_iff u t,
      h.held u,
    );
  }

  handle_line-Held : (line : Option Inbound) → Held c → Held (handle_line line c)
  unfolding handle_line
  handle_line-Held none h = h
  handle_line-Held (some Inbound.unknown) h = h
  handle_line-Held (some (Inbound.decision id action reason)) h =
      resolve-Held id _ (Map.get id c.pending) refl h

module _ {c : Channel} (t : ℕ) (h : Held c) where
  send-Held : c.phase t ≡ Phase.registered → Held (send t c)
  unfolding send
  send-Held p = record { held = λ u a s. h.held u (ground (arith, ==_iff u t)) s }

  receive-Held : (d : Decision) → Held (receive t d c)
  unfolding receive
  receive-Held d = record { held = λ u a s. h.held u (ground (arith, ==_iff u t)) s }

  give_up-Held : Held (give_up t c)
  unfolding give_up
  give_up-Held = record { held = λ u a s. h.held u (ground (arith, ==_iff u t)) s }

recv-Held : {c : Channel} → Held c → Held (recv c).1
unfolding recv
recv-Held h = record { held = h.held }

Step-Held :
    {c d : Channel} {label : Option (Option Inbound)}
    → HasDistinctIds c.query
    → Step c label d
    → Held c
    → Held d
Step-Held n (emits e) h = unfold emit in record { held = h.held }
Step-Held n (registers t p) h = register-Held n t h
Step-Held n (sends t p) h = send-Held t h p
Step-Held n (receives t d p s) h = receive-Held t h d
Step-Held n (gives_up t p s) h = give_up-Held t h
Step-Held n (cleans t p) h = clean-Held n t h
Step-Held n (reads line) h = handle_line-Held n line h
Step-Held n writes h = recv-Held h

query-resolve :
    (id : Str) (d : Decision) (o : Option ℕ) (c : Channel) → (resolve id d o c).query ≡ c.query
query-resolve id d none c = refl
query-resolve id d (some t) c = refl

query-handle_line : (line : Option Inbound) (c : Channel) → (handle_line line c).query ≡ c.query
unfolding handle_line
query-handle_line none c = refl
query-handle_line (some Inbound.unknown) c = refl
query-handle_line (some (Inbound.decision id action reason)) c = query-resolve id _ _ c

query-Step : {c d : Channel} {label : Option (Option Inbound)} → Step c label d → d.query ≡ c.query
unfolding emit register send receive give_up clean recv
query-Step (emits e) = refl
query-Step (registers t p) = refl
query-Step (sends t p) = refl
query-Step (receives t d p s) = refl
query-Step (gives_up t p s) = refl
query-Step (cleans t p) = refl
query-Step {c} (reads line) = query-handle_line line c
query-Step writes = refl

pub query-Run :
    {query : ℕ → Query} {lines : List (Option Inbound)} {c : Channel}
    → Run query lines c
    → c.query ≡ query
query-Run here = refl
query-Run (next label r s) = query-Step s ∙ query-Run r

Run-Held :
    {query : ℕ → Query} {lines : List (Option Inbound)} {c : Channel}
    → HasDistinctIds query
    → Run query lines c
    → Held c
Run-Held {query} n here = record { held = λ t a s. absurd a }
Run-Held n (next label r s) =
    Step-Held (subst HasDistinctIds (sym (query-Run r)) n) s (Run-Held n r)

pub record Delivered (t : ℕ) (d : Decision) (before after : Channel) : Type 0 where
  pub arrives : after.slot t ≡ some d
  pub removed : Map.get (before.query t).id after.pending ≡ none
  pub others : (u : ℕ) → u ≢ t → after.slot u ≡ before.slot u
  pub phases : after.phase ≡ before.phase

-- With distinct identifiers, and whatever has happened before: while a call waits with no decision
-- yet, the next decision line for its identifier puts that decision into its channel and removes its
-- entry, and leaves the other calls as they are.
pub handle_line-Delivered :
    {query : ℕ → Query} {lines : List (Option Inbound)} {c : Channel} (t : ℕ) (d : Decision)
    → HasDistinctIds query
    → Run query lines c
    → c.phase t ≡ Phase.waiting
    → c.slot t ≡ none
    → Delivered t d c (handle_line (some (Inbound.decision (c.query t).id d.action d.reason)) c)
unfolding handle_line
handle_line-Delivered {c} t d n r p s =
    let e = (Run-Held n r).held t (rw p tt) s in
    subst (λ o. Delivered t d c (resolve (c.query t).id d o c)) (sym e)
      (record {
        arrives = ground (arith, ==_iff t t);
        removed = simp (map_laws, str_eq_refl);
        others = λ u m. ground (arith, ==_iff u t);
        phases = refl;
      })

resolve_twice :
    (id : Str) (d d' : Decision) (c : Channel) (o : Option ℕ)
    → Map.get id c.pending ≡ o
    → resolve id d' (Map.get id (resolve id d o c).pending) (resolve id d o c) ≡ resolve id d o c
resolve_twice id d d' c none e = rw e
resolve_twice id d d' c (some t) e = simp (map_laws, str_eq_refl)

-- A decision line for an identifier that was just answered changes nothing.
pub handle_line_twice :
    (id : Str) (a b : DecisionAction) (r s : Option Str) (c : Channel)
    → handle_line (some (Inbound.decision id b s)) (handle_line (some (Inbound.decision id a r)) c)
      ≡ handle_line (some (Inbound.decision id a r)) c
unfolding handle_line
handle_line_twice id a b r s c = resolve_twice id _ _ c (Map.get id c.pending) refl
