-- ===== src/Control/Waiting.antt =====
-- What becomes of a call that waits, once its decision is there.
use condukt.Prelude.{
  ℕ, zero, suc, ◌+◌, Bool, true, false, ◌≡◌, refl, List, Option, none, some, Str, ◌==◌, ==_iff,
  arith, if◌then◌else◌, sym, subst, ap, ◌∙◌,
}
use condukt.Prelude.Map
use condukt.Event.{Inbound}
use condukt.Control.{
  Decision, Query, Phase, Channel, emit, register, send, receive, give_up, resolve, handle_line,
  recv, clean,
}
use condukt.Control.Delivery.{HasDistinctIds, handle_line-Delivered}
use condukt.Control.Steps.{
  Step, emits, registers, sends, receives, gives_up, cleans, reads, writes, Run, Inv, Run-Inv,
  Step-Inv,
}

-- how many of its own steps call `t` makes in one step
abbrev pub turn : ℕ → {c d : Channel} {label : Option (Option Inbound)} → Step c label d → ℕ
turn t (emits e) = 0
turn t (registers u p) = if u == t then 1 else 0
turn t (sends u p) = if u == t then 1 else 0
turn t (receives u d p s) = if u == t then 1 else 0
turn t (gives_up u p s) = if u == t then 1 else 0
turn t (cleans u p) = if u == t then 1 else 0
turn t (reads line) = 0
turn t writes = 0

-- Any continuation from a channel, with the number of steps that call `t` makes in it.
pub data Later (t : ℕ) (c : Channel) : ℕ → Channel → Type 0 where
  now : Later t c 0 c
  and_then :
      {d e : Channel} {n : ℕ} {label : Option (Option Inbound)}
      → Later t c n d
      → (s : Step d label e) → Later t c (turn t s + n) e

-- The call waits with its decision in its channel, and may take it.
pub record Ready (t : ℕ) (d : Decision) (c : Channel) : Type 0 where
  pub waits : c.phase t ≡ Phase.waiting
  pub holds : c.slot t ≡ some d

-- Without a step of its own the call is still ready; with one it has returned its decision, and a
-- second one it does not make.
abbrev pub Served : ℕ → Decision → ℕ → Channel → Type 0
Served t d zero c = Ready t d c
Served t d (suc zero) c = c.phase t ≡ Phase.returned (some d)
Served t d (suc (suc n)) c = ⊥

module _ {c : Channel} (t : ℕ) (d : Decision) where
  resolve-Ready :
      (id : Str) (v : Decision) (o : Option ℕ)
      → Map.get id c.pending ≡ o
      → Inv c
      → Ready t d c
      → Ready t d (resolve id v o c)
  resolve-Ready id v none e i r = r
  resolve-Ready id v (some u) e i r = record {
    waits = r.waits;
    holds = ground (arith, i.entries id u e, ==_iff t u, r.holds);
  }

  handle_line-Ready : (line : Option Inbound) → Inv c → Ready t d c → Ready t d (handle_line line c)
  unfolding handle_line
  handle_line-Ready none i r = r
  handle_line-Ready (some Inbound.unknown) i r = r
  handle_line-Ready (some (Inbound.decision id action reason)) i r =
      resolve-Ready id _ (Map.get id c.pending) refl i r

resolve-phase :
    (id : Str) (v : Decision) (o : Option ℕ) (c : Channel) → (resolve id v o c).phase ≡ c.phase
resolve-phase id v none c = refl
resolve-phase id v (some u) c = refl

pub handle_line-phase : (line : Option Inbound) (c : Channel) → (handle_line line c).phase ≡ c.phase
unfolding handle_line
handle_line-phase none c = refl
handle_line-phase (some Inbound.unknown) c = refl
handle_line-phase (some (Inbound.decision id action reason)) c = resolve-phase id _ _ c

-- a step of call `u`, seen by call `t`
module _ (t u : ℕ) (d : Decision) (e : Channel) where
  Served-by :
      (own : Bool)
      → (own ≡ true → e.phase t ≡ Phase.returned (some d))
      → (own ≡ false → Ready t d e)
      → Served t d (if own then 1 else 0) e
  Served-by true same other = same refl
  Served-by false same other = other refl

-- a step that finds the call ready
Ready-Step :
    {c e : Channel} {label : Option (Option Inbound)} (t : ℕ) (d : Decision) (s : Step c label e)
    → Inv c
    → Ready t d c
    → Served t d (turn t s) e
unfolding emit register send receive give_up clean recv
Ready-Step t d (emits ev) i r = record { waits = r.waits; holds = r.holds }
Ready-Step t d (registers u p) i r =
    Served-by t u d _ (u == t) (λ same. absurd (ground (arith, ==_iff u t, r.waits)))
      (λ other. record { waits = ground (arith, ==_iff u t, r.waits); holds = r.holds })
Ready-Step t d (sends u p) i r =
    Served-by t u d _ (u == t) (λ same. absurd (ground (arith, ==_iff u t, r.waits)))
      (λ other. record { waits = ground (arith, ==_iff u t, r.waits); holds = r.holds })
Ready-Step t d (receives u v p h) i r =
    Served-by t u d _ (u == t) (λ same. ground (arith, ==_iff u t, ==_iff t u, r.holds))
      (λ other. record { waits = ground (arith, ==_iff u t, ==_iff t u, r.waits); holds = r.holds })
Ready-Step t d (gives_up u p h) i r =
    Served-by t u d _ (u == t) (λ same. absurd (ground (arith, ==_iff u t, r.holds)))
      (λ other. record { waits = ground (arith, ==_iff u t, r.waits); holds = r.holds })
Ready-Step t d (cleans u p) i r =
    Served-by t u d _ (u == t) (λ same. absurd (ground (arith, ==_iff u t, r.waits)))
      (λ other. record { waits = ground (arith, ==_iff u t, r.waits); holds = r.holds })
Ready-Step t d (reads line) i r = handle_line-Ready t d line i r
Ready-Step t d writes i r = record { waits = r.waits; holds = r.holds }

pub returned-kept :
    {c e : Channel} {label : Option (Option Inbound)} (t : ℕ) (r : Option Decision)
    (s : Step c label e)
    → c.phase t ≡ Phase.returned r
    → (turn t s ≡ 0) × (e.phase t ≡ Phase.returned r)
unfolding emit register send receive give_up clean recv
returned-kept t r (emits ev) h = (refl, h)
returned-kept t r (registers u p) h = (ground (arith, ==_iff u t), ground (arith, ==_iff u t))
returned-kept t r (sends u p) h = (ground (arith, ==_iff u t), ground (arith, ==_iff u t))
returned-kept t r (receives u v p q) h = (ground (arith, ==_iff u t), ground (arith, ==_iff u t))
returned-kept t r (gives_up u p q) h = (ground (arith, ==_iff u t), ground (arith, ==_iff u t))
returned-kept t r (cleans u p) h = (ground (arith, ==_iff u t), ground (arith, ==_iff u t))
returned-kept {c} t r (reads line) h = (refl, rw (handle_line-phase line c, h))
returned-kept t r writes h = (refl, h)

Served-Step :
    {c e : Channel} {label : Option (Option Inbound)} (t : ℕ) (d : Decision) (n : ℕ)
    (s : Step c label e)
    → Inv c
    → Served t d n c
    → Served t d (turn t s + n) e
Served-Step {c} {e} t d zero s i r =
    subst (λ m. Served t d m e) (omega arith) (Ready-Step t d s i r)
Served-Step {c} {e} t d (suc zero) s i h =
    let kept = returned-kept t (some d) s h in subst (λ m. Served t d (m + 1) e) (sym kept.0) kept.1
Served-Step t d (suc (suc n)) s i h = absurd h

Later-Inv : {t : ℕ} {c : Channel} {n : ℕ} {e : Channel} → Later t c n e → Inv c → Inv e
Later-Inv now i = i
Later-Inv (and_then l s) i = Step-Inv s (Later-Inv l i)

Later-Served :
    (t : ℕ) (d : Decision) {c : Channel} {n : ℕ} {e : Channel}
    → Later t c n e
    → Inv c
    → Ready t d c
    → Served t d n e
Later-Served t d now i r = r
Later-Served t d (and_then l s) i r = Served-Step t d _ s (Later-Inv l i) (Later-Served t d l i r)

-- With distinct identifiers, once the peer's decision for a waiting call has been read: whatever the
-- parties then do, the call is still ready to take that decision as long as it makes no step of its
-- own, has returned exactly that decision after one step, and makes no second one. In particular it
-- no longer gives up.
pub handle_line-Served :
    {query : ℕ → Query} {lines : List (Option Inbound)} {c e : Channel} {n : ℕ} (t : ℕ)
    (d : Decision)
    → HasDistinctIds query
    → Run query lines c
    → c.phase t ≡ Phase.waiting
    → c.slot t ≡ none
    → Later t (handle_line (some (Inbound.decision (c.query t).id d.action d.reason)) c) n e
    → Served t d n e
handle_line-Served {c = c} t d distinct run waits empty later =
    let delivered = handle_line-Delivered t d distinct run waits empty in
    let line = some (Inbound.decision (c.query t).id d.action d.reason) in
    Later-Served t d later (Step-Inv (reads line) (Run-Inv run))
      (record { waits = ap (λ f. f t) delivered.phases ∙ waits; holds = delivered.arrives })
