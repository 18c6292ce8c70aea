-- ===== src/Control/Termination.antt =====
-- A call of `request_decision` ends.
use condukt.Prelude.{
  ℕ, ◌+◌, ◌≤◌, ◌≡◌, refl, inl, inr, Bool, true, false, Option, none, ltb, ◌==◌, ==_iff, length,
  arith, if◌then◌else◌, Option-cases, Bool-cases,
}
use condukt.Event.{Inbound}
use condukt.Control.{
  buffer_cap, Decision, Phase, Channel, emit, register, send, receive, give_up, clean, recv,
}
use condukt.Control.Steps.{Step, emits, registers, sends, receives, gives_up, cleans, reads, writes}
use condukt.Control.Waiting.{turn, Later, now, and_then, handle_line-phase}

-- how many steps a call has at most left
abbrev pub left : Phase → ℕ
left Phase.starting = 4
left Phase.registered = 3
left Phase.waiting = 2
left Phase.cleaning = 1
left (Phase.returned r) = 0

-- The call has returned, or may make its next step at once.
pub data IsLive (t : ℕ) (c : Channel) : Type 0 where
  has_returned : (r : Option Decision) → c.phase t ≡ Phase.returned r → IsLive t c
  steps : {d : Channel} (s : Step c none d) → turn t s ≡ 1 → IsLive t c

-- what `try_send` answers decides where the call goes on
left-send : (t : ℕ) (c : Channel) → left ((send t c).phase t) ≤ 2
unfolding send
left-send t c = elim (Bool-cases (ltb (length c.queue) buffer_cap)) [
  | inl e ↦ ground (arith, ==_iff t t)
  | inr e ↦ ground (arith, ==_iff t t)
]

module _ (t : ℕ) where
  -- a step of call `u`, seen by call `t`
  by_caller :
      (u before : ℕ) (phase : Phase)
      → ((u == t) ≡ true → left phase + 1 ≤ before)
      → ((u == t) ≡ false → left phase ≤ before)
      → left phase + (if u == t then 1 else 0) ≤ before
  by_caller u before phase same other = by (u == t) same other
    where
      by :
          (own : Bool)
          → (own ≡ true → left phase + 1 ≤ before)
          → (own ≡ false → left phase ≤ before)
          → left phase + (if own then 1 else 0) ≤ before
      by true p q = p refl
      by false p q = omega (arith, q refl)

  left-Step :
      {c d : Channel} {label : Option (Option Inbound)} (s : Step c label d)
      → left (d.phase t) + turn t s ≤ left (c.phase t)
  unfolding emit register send receive give_up clean recv
  left-Step (emits e) = omega arith
  left-Step {c} (registers u p) =
      by_caller u (left (c.phase t)) _ (λ same. ground (arith, ==_iff u t, p))
        (λ other. ground (arith, other))
  left-Step {c} (sends u p) =
      by_caller u (left (c.phase t)) _ (λ same. ground (arith, ==_iff u t, p, left-send u c))
        (λ other. ground (arith, other))
  left-Step {c} (receives u v p h) =
      by_caller u (left (c.phase t)) _ (λ same. ground (arith, ==_iff u t, p))
        (λ other. ground (arith, other))
  left-Step {c} (gives_up u p h) =
      by_caller u (left (c.phase t)) _ (λ same. ground (arith, ==_iff u t, p))
        (λ other. ground (arith, other))
  left-Step {c} (cleans u p) =
      by_caller u (left (c.phase t)) _ (λ same. ground (arith, ==_iff u t, p))
        (λ other. ground (arith, other))
  left-Step {c} (reads line) = rw (handle_line-phase line c) (omega arith)
  left-Step writes = omega arith

  left-Later : {c d : Channel} {n : ℕ} → Later t c n d → left (d.phase t) + n ≤ left (c.phase t)
  left-Later now = omega arith
  left-Later (and_then l s) = omega (arith, left-Later l, left-Step s)

  own_turn : ◌≡◌ {A = ℕ} (if t == t then 1 else 0) 1
  own_turn = rw ((==_iff t t).1 refl) refl

  at_phase : (c : Channel) (p : Phase) → c.phase t ≡ p → IsLive t c
  at_phase c Phase.starting e = steps (registers t e) own_turn
  at_phase c Phase.registered e = steps (sends t e) own_turn
  at_phase c Phase.waiting e = elim (Option-cases (c.slot t)) [
    | inl h ↦ steps (gives_up t e h) own_turn
    | inr (d, h) ↦ steps (receives t d e h) own_turn
  ]
  at_phase c Phase.cleaning e = steps (cleans t e) own_turn
  at_phase c (Phase.returned r) e = has_returned r e

  left_bounded : (p : Phase) → left p ≤ 4
  left_bounded Phase.starting = omega arith
  left_bounded Phase.registered = omega arith
  left_bounded Phase.waiting = omega arith
  left_bounded Phase.cleaning = omega arith
  left_bounded (Phase.returned r) = omega arith

  returned_of_none_left : (p : Phase) → left p ≡ 0 → (r : Option Decision) × (p ≡ Phase.returned r)
  returned_of_none_left Phase.starting h = absurd (omega (arith, h))
  returned_of_none_left Phase.registered h = absurd (omega (arith, h))
  returned_of_none_left Phase.waiting h = absurd (omega (arith, h))
  returned_of_none_left Phase.cleaning h = absurd (omega (arith, h))
  returned_of_none_left (Phase.returned r) h = (r, refl)

  -- Whatever the other calls, the reader and the writer do, and whatever the peer sends or does not
  -- send: a call makes at most four steps, has returned once it has made four, and until it has
  -- returned its next step is possible, which the timeout sees to where no decision comes.
  pub call_terminates :
      {c d : Channel} {n : ℕ}
      → Later t c n d
      → (n ≤ 4) × (n ≡ 4 → (r : Option Decision) × (d.phase t ≡ Phase.returned r)) × IsLive t d
  call_terminates {c} {d} l =
      let bound = left-Later l in
      let most = left_bounded (c.phase t) in
      (
        omega (arith, bound, most),
        λ e. returned_of_none_left (d.phase t) (omega (arith, bound, most, e)),
        at_phase d (d.phase t) refl,
      )
