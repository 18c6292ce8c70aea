-- ===== src/Conn/Handle/Decider.antt =====
-- The handler and the control channel together: whose word lets a connection through.
use condukt.Prelude.{ℕ, ◌≡◌, inl, inr, List, Option, some, Str, Any, arith, subst, ok}
use condukt.Prelude.Bytes.{Bytes}
use condukt.Policy
use condukt.Policy.{Policy, evaluate}
use condukt.Event.{SocketAddr, DecisionAction, Inbound, new_request}
use condukt.Control
use condukt.Control.{Query, Phase, Channel}
use condukt.Control.Steps.{Run}
use condukt.Control.Answers.{Answered, returned-Answered}
use condukt.OrigDst.{original_dst}
use condukt.Conn.Host.{identify_host}
use condukt.Conn.Handle.{Answers, query_of, request_of, handle}
use condukt.Conn.Handle.Contact.{IsTransfer, handle_transfers_iff}

-- one of the lines allows the identifier
abbrev pub Allowed : List (Option Inbound) → Str → Type 0
Allowed lines id =
    (reason : Option Str) × Any (λ l. l ≡ some (Inbound.decision id DecisionAction.allow reason))
      lines

pub Allowed-of_answer :
    (lines : List (Option Inbound)) (id : Str) (v : Control.Decision)
    → v.action ≡ DecisionAction.allow
    → Answered lines id v
    → Allowed lines id
Allowed-of_answer lines id v allowed answer = (
  v.reason,
  subst (λ action. Any (λ l. l ≡ some (Inbound.decision id action v.reason)) lines) allowed answer,
)

-- The decider of the connection is call `t` of a run of the control channel, made with the
-- connection's request.
pub record Asked (a : Answers) (dst : SocketAddr) (host : Str) (t : ℕ) (c : Channel) : Type 0 where
  pub question : c.query t ≡ query_of (request_of a dst host)
  pub reply : c.phase t ≡ Phase.returned a.decider

module _ (a : Answers) (p : Policy) (dst : SocketAddr) (bytes : Bytes) (host : Str)
    (redirected : original_dst a.little_endian a.getsockopt ≡ ok dst) (peeked : a.peek ≡ some bytes)
    (identified : identify_host a.tls bytes dst.port dst.ip ≡ host) where
  -- For a host that the policy leaves to the decider, whatever other calls, the reader, the writer
  -- and emitted events do in between: where the decider's answer is what `request_decision` returned
  -- for the connection's request, the handler goes on to the upstream only if the peer sent a line
  -- that allows the identifier of this very connection.
  pub handle_transfers-Allowed :
      {query : ℕ → Query} {lines : List (Option Inbound)} {c : Channel} (t : ℕ)
      → (evaluate p host).0 ≡ Policy.Decision.decide
      → Run query lines c
      → Asked a dst host t c
      → Any IsTransfer (handle a p)
      → Allowed lines a.id
  unfolding new_request
  handle_transfers-Allowed {query} {lines} {c} t decided run asked transferred =
      elim ((handle_transfers_iff a p dst bytes host redirected peeked identified).0 transferred) [
        | inl allowed ↦ absurd (ground (arith, decided, allowed))
        | inr (e, (v, answer, allowed)) ↦ Allowed-of_answer lines a.id v allowed (
            subst (λ (q : Query). Answered lines q.id v) asked.question
              (returned-Answered t v run (rw (asked.reply, answer))))
      ]
