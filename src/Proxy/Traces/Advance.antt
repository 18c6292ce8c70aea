-- ===== src/Proxy/Traces/Advance.antt =====
-- A step of a handler leads from a stage that its trace tracks to another.
use condukt.Prelude.{
  Bool, true, false, ◌==◌, ==_iff, ◌≡◌, refl, sym, ap, ◌∙◌, subst, List, [], ◌∷◌, ◌++◌, Option,
  none, some, Str, append_assoc, append-nil, arith,
}
use condukt.Policy
use condukt.Policy.{Policy, evaluate}
use condukt.Event.{SocketAddr, Event, https_port}
use condukt.Tls
use condukt.Tls.Minting.{TlsError}
use condukt.Control
use condukt.Control.{Phase}
use condukt.Conn.Handle.{Answers, Effect, emits, denial_reason}
use condukt.Conn.Stages.{
  Stage, identified, begun, stage_of, allowed_event, with_config, transfer_of, opening, resume,
  carry, secure, advance,
}
use condukt.Proxy.Traces.{
  IsAnswer, IsConfigured, carried, Tracks, at_start, at_decision, at_settled, at_securing,
  at_serving, at_end, at_end_unknown, handle_host_by,
}

module _ (p : Policy) (a : Answers) where
  module _ {S : Type 0} where
    -- a trace with what a step of the handler adds to it
    abbrev onward : Stage → Phase → Tls.Phase S → List Effect → List Effect
    onward stage phase own tr = tr ++ (advance p a stage phase own).effects

    -- where a step of the handler leads
    abbrev Onward : Stage → Phase → Tls.Phase S → List Effect → Type 0
    Onward stage phase own tr =
        Tracks p a phase own (advance p a stage phase own).stage (onward stage phase own tr)

    module _ (phase : Phase) (own : Tls.Phase S) where
      -- the first step of an identified connection, from the policy's decision
      Tracks-stage_of :
          {dst : SocketAddr} {host : Str} (d : Policy.Decision)
          → identified a ≡ some (dst, host)
          → (evaluate p host).0 ≡ d
          → Tracks p a phase own (stage_of d dst host) (begun p a dst host)
      unfolding denial_reason
      Tracks-stage_of Policy.Decision.allow i e =
          at_settled none i (λ f. absurd (ground (arith, e, f))) (rw e refl) refl
      Tracks-stage_of (Policy.Decision.deny reason) i e =
          at_settled none i (λ f. absurd (ground (arith, e, f))) (rw e refl) refl
      Tracks-stage_of Policy.Decision.decide i e = at_decision i e refl

      Tracks-opening :
          {tr : List Effect} (o : Option (SocketAddr × Str))
          → identified a ≡ o
          → tr ≡ []
          → Tracks p a phase own (opening p a o).stage (tr ++ (opening p a o).effects)
      Tracks-opening none i e = at_end_unknown i (rw e refl)
      Tracks-opening (some (dst, host)) i e =
          subst (λ l. Tracks p a phase own (stage_of (evaluate p host).0 dst host) l)
            (sym (ap (λ l. l ++ begun p a dst host) e)) (Tracks-stage_of (evaluate p host).0 i refl)

      Tracks-settled :
          {tr : List Effect} {dst : SocketAddr} {host : Str} (reason : Option Str)
          (v : Option Control.Decision)
          → identified a ≡ some (dst, host)
          → IsAnswer p host phase v
          → denial_reason (evaluate p host).0 v ≡ reason
          → tr ≡ begun p a dst host
          → Onward (Stage.settled dst host reason) phase own tr
      Tracks-settled {dst = dst} {host = host} (some reason) v i answer r e =
          at_end v none i answer (λ f g. absurd (ground (arith, r, f)))
            (ap (onward (Stage.settled dst host (some reason)) phase own) e
              ∙ sym (handle_host_by p a dst host v none (some reason) r))
      Tracks-settled {dst = dst} {host = host} none v i answer r e =
          at_securing v i answer r (ap (onward (Stage.settled dst host none) phase own) e)

      Tracks-carry :
          {tr : List Effect} {dst : SocketAddr} {host : Str} (v : Option Control.Decision)
          (c : Option TlsError)
          → identified a ≡ some (dst, host)
          → IsAnswer p host phase v
          → IsConfigured p dst host v own c
          → denial_reason (evaluate p host).0 v ≡ none
          → tr ≡ begun p a dst host ++ emits (allowed_event p a dst host) ∷ []
          → Tracks p a phase own
              (carry (with_config a c) dst host).stage
              (tr ++ (carry (with_config a c) dst host).effects)
      Tracks-carry {dst = dst} {host = host} v c i answer conf r e =
          at_serving v c i answer conf r (
            ap (λ l. l ++ (carry (with_config a c) dst host).effects) e
            ∙ append_assoc (begun p a dst host) _ _)

      Tracks-serving :
          {tr : List Effect} {dst : SocketAddr} {host : Str} (es : List Event)
          (v : Option Control.Decision) (c : Option TlsError)
          → identified a ≡ some (dst, host)
          → IsAnswer p host phase v
          → IsConfigured p dst host v own c
          → denial_reason (evaluate p host).0 v ≡ none
          → tr ≡ begun p a dst host ++ carried p (with_config a c) dst host
          → Onward (Stage.serving dst host (transfer_of (with_config a c) dst host) es) phase own tr
      Tracks-serving (x ∷ es) v c i answer conf r e =
          at_serving v c i answer conf r (append-nil _ ∙ e)
      Tracks-serving {dst = dst} {host = host} [] v c i answer conf r e = at_end v c i answer conf (
          ap (onward (Stage.serving dst host (transfer_of (with_config a c) dst host) []) phase own)
            e
          ∙ (append_assoc (begun p a dst host) _ _ ∙ sym (handle_host_by p a dst host v c none r)))

    Tracks-secure :
        {phase : Phase} {tr : List Effect} {dst : SocketAddr} {host : Str} (https : Bool)
        (own : Tls.Phase S) (v : Option Control.Decision)
        → (dst.port ≡ https_port → https ≡ true)
        → identified a ≡ some (dst, host)
        → IsAnswer p host phase v
        → denial_reason (evaluate p host).0 v ≡ none
        → tr ≡ begun p a dst host ++ emits (allowed_event p a dst host) ∷ []
        → Tracks p a phase own
            (secure a dst host https own).stage
            (tr ++ (secure a dst host https own).effects)
    Tracks-secure {phase} false own v q i answer r e =
        Tracks-carry phase own v none i answer (λ f g. absurd (ground (arith, q g))) r e
    Tracks-secure true Tls.Phase.starting v q i answer r e =
        at_securing v i answer r (append-nil _ ∙ e)
    Tracks-secure true Tls.Phase.minting v q i answer r e =
        at_securing v i answer r (append-nil _ ∙ e)
    Tracks-secure true (Tls.Phase.minted fresh) v q i answer r e =
        at_securing v i answer r (append-nil _ ∙ e)
    Tracks-secure {phase} true (Tls.Phase.returned cfg) v q i answer r e =
        Tracks-carry phase (Tls.Phase.returned cfg) v none i answer (λ f g. (cfg, refl)) r e
    Tracks-secure {phase} true (Tls.Phase.failed x) v q i answer r e =
        Tracks-carry phase (Tls.Phase.failed x) v (some x) i answer (λ f g. refl) r e

    Tracks-resume :
        {tr : List Effect} {dst : SocketAddr} {host : Str} (phase : Phase) (own : Tls.Phase S)
        → identified a ≡ some (dst, host)
        → (evaluate p host).0 ≡ Policy.Decision.decide
        → tr ≡ begun p a dst host
        → Tracks p a phase own (resume dst host phase).stage (tr ++ (resume dst host phase).effects)
    unfolding denial_reason
    Tracks-resume Phase.starting own i d e = at_decision i d (append-nil _ ∙ e)
    Tracks-resume Phase.registered own i d e = at_decision i d (append-nil _ ∙ e)
    Tracks-resume Phase.waiting own i d e = at_decision i d (append-nil _ ∙ e)
    Tracks-resume Phase.cleaning own i d e = at_decision i d (append-nil _ ∙ e)
    Tracks-resume (Phase.returned v) own i d e =
        at_settled v i (λ f. refl) (rw d refl) (append-nil _ ∙ e)

    -- a step of the handler
    pub Tracks-advance :
        {phase : Phase} {own : Tls.Phase S} {stage : Stage} {tr : List Effect}
        → Tracks p a phase own stage tr
        → Onward stage phase own tr
    Tracks-advance {phase} {own} (at_start e) = Tracks-opening phase own (identified a) refl e
    Tracks-advance {phase} {own} (at_decision i d e) = Tracks-resume phase own i d e
    Tracks-advance {phase} {own} (at_settled {reason = reason} v i answer r e) =
        Tracks-settled phase own reason v i answer r e
    Tracks-advance {own = own} (at_securing {dst = dst} v i answer r e) =
        Tracks-secure (dst.port == https_port) own v (λ q. (==_iff dst.port https_port).1 q) i
          answer r e
    Tracks-advance {phase} {own} (at_serving {es = es} v c i answer conf r e) =
        Tracks-serving phase own es v c i answer conf r e
    Tracks-advance (at_end v c i answer conf e) = at_end v c i answer conf (append-nil _ ∙ e)
    Tracks-advance (at_end_unknown i e) = at_end_unknown i (append-nil _ ∙ e)
