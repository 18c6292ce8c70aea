-- ===== src/Proxy/Traces/Kept.antt =====
-- The steps of other parties keep what the calls of a connection have ended with.
use condukt.Prelude.{◌≡◌, Option, List}
use condukt.Policy.{Policy}
use condukt.Control
use condukt.Control.{Phase}
use condukt.Tls
use condukt.Tls.Minting.{TlsError}
use condukt.Conn.Handle.{Answers, Effect}
use condukt.Conn.Stages.{Stage}
use condukt.Proxy.Traces.{
  Ends, Tracks, at_start, at_decision, at_settled, at_securing, at_serving, at_end, at_end_unknown,
}

module _ {S : Type 0} (p : Policy) (a : Answers) {phase phase' : Phase} {own own' : Tls.Phase S}
    (answers : (v : Option Control.Decision) → phase ≡ Phase.returned v → phase' ≡ Phase.returned v)
    (ends : (c : Option TlsError) → Ends own c → Ends own' c) where
  pub Tracks-kept :
      {stage : Stage} {tr : List Effect}
      → Tracks p a phase own stage tr
      → Tracks p a phase' own' stage tr
  Tracks-kept (at_start e) = at_start e
  Tracks-kept (at_decision i d e) = at_decision i d e
  Tracks-kept (at_settled v i answer r e) = at_settled v i (λ f. answers v (answer f)) r e
  Tracks-kept (at_securing v i answer r e) = at_securing v i (λ f. answers v (answer f)) r e
  Tracks-kept (at_serving v c i answer conf r e) =
      at_serving v c i (λ f. answers v (answer f)) (λ f g. ends c (conf f g)) r e
  Tracks-kept (at_end v c i answer conf e) =
      at_end v c i (λ f. answers v (answer f)) (λ f g. ends c (conf f g)) e
  Tracks-kept (at_end_unknown i e) = at_end_unknown i e
