-- ===== src/Proxy/Safety.antt =====
-- What lets a connection of a run through.
use condukt.Prelude.{
  ℕ, ◌≡◌, refl, ap, ◌∙◌, subst, ◌⊎◌, inl, inr, List, Option, none, some, Str, Any, Any-append,
  arith,
}
use condukt.Policy
use condukt.Policy.{Policy, evaluate}
use condukt.Event.{SocketAddr, Inbound, new_request}
use condukt.Control.{Phase, Query}
use condukt.Control.Delivery.{query-Run}
use condukt.Control.Answers.{Answered, returned-Answered}
use condukt.Conn.Handle.{Answers}
use condukt.Conn.Handle.Contact.{IsTransfer, IsPermitted, IsTransfer-of_handle_host}
use condukt.Conn.Handle.Decider.{Allowed, Allowed-of_answer}
use condukt.Conn.Stages.{identified, query_at}
use condukt.Proxy.{Proxy, Run}
use condukt.Proxy.Traces.{with_answers}
use condukt.Proxy.Runs.{Run-channel}
use condukt.Proxy.Identified.{handled, handle_by}
use condukt.Proxy.Handling.{Handles, Run-Handles}

-- The policy allows the host, or leaves it to the decider, and the peer allowed the identifier.
abbrev pub IsAllowed : Policy → List (Option Inbound) → Answers → Str → Type 0
IsAllowed p lines a host =
    ((evaluate p host).0 ≡ Policy.Decision.allow)
    ⊎ (((evaluate p host).0 ≡ Policy.Decision.decide) × Allowed lines a.id)

id-query_at : (a : Answers) (o : Option (SocketAddr × Str)) → (query_at a o).id ≡ a.id
unfolding new_request
id-query_at a none = refl
id-query_at a (some (dst, host)) = refl

-- from the case of the connection's identification
module _ {S : Type 0} {Mints : Str → S → Type 0} {p : Policy} {a : ℕ → Answers}
    {lines : List (Option Inbound)} {s : Proxy S} (t : ℕ) (r : Run p a Mints lines s)
    (h : Handles p (a t) (s.channel.phase t) (s.ca.phase t) (s.stage t) (s.trace t)) where
  decided :
      (dst : SocketAddr) (host : Str)
      → identified (a t) ≡ some (dst, host)
      → IsPermitted (evaluate p host).0 h.decider
      → IsAllowed p lines (a t) host
  decided dst host i (inl allowed) = inl allowed
  decided dst host i (inr (e, (v, decider, allowed))) = elim (h.answer dst host i e) [
    | inl returned ↦ inr (
      e,
      Allowed-of_answer lines (a t).id v allowed (
          subst (λ id. Answered lines id v)
            (ap (λ (q : ℕ → Query). (q t).id) (query-Run (Run-channel Mints p a r))
              ∙ id-query_at (a t) (identified (a t)))
            (returned-Answered t v (Run-channel Mints p a r)
              (returned ∙ ap Phase.returned decider))),
    )
    | inr (unknown, early) ↦ absurd (ground (arith, unknown, decider))
  ]

  transferred :
      (o : Option (SocketAddr × Str))
      → identified (a t) ≡ o
      → Any IsTransfer (handled (with_answers (a t) h.decider h.config) p o)
      → (dst : SocketAddr) × (host : Str) × (identified (a t) ≡ some (dst, host))
        × IsAllowed p lines (a t) host
  transferred none i x = absurd x
  transferred (some (dst, host)) i x = (
    dst,
    host,
    i,
    decided dst host i
        ((IsTransfer-of_handle_host (with_answers (a t) h.decider h.config) p dst host).0 x),
  )

-- Whatever order the handlers, their calls, the reader and the writer run in: a connection that has
-- gone on to its upstream has a destination and a host that could be told, and the policy allows this
-- host, or leaves it to the decider and the peer has sent a line that allows the identifier of this
-- very connection.
pub Run-IsAllowed :
    {S : Type 0} {Mints : Str → S → Type 0} {p : Policy} {a : ℕ → Answers}
    {lines : List (Option Inbound)} {s : Proxy S} (t : ℕ)
    → Run p a Mints lines s
    → Any IsTransfer (s.trace t)
    → (dst : SocketAddr) × (host : Str) × (identified (a t) ≡ some (dst, host))
      × IsAllowed p lines (a t) host
unfolding identified
Run-IsAllowed {p = p} {a} {lines} {s} t r x =
    let h = Run-Handles t r in
    transferred t r h (identified (a t)) refl (
      subst (Any IsTransfer) (h.whole ∙ handle_by (with_answers (a t) h.decider h.config) p)
        (Any-append IsTransfer (s.trace t) h.rest x))
