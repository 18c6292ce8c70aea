-- ===== src/Proxy/Handling.antt =====
-- Each connection of a run is a connection of `handle`.
use condukt.Prelude.{
  ℕ, ◌≡◌, refl, sym, ap, ◌∙◌, ◌⊎◌, inl, inr, List, [], ◌∷◌, ◌++◌, Option, none, some, Str,
  append_assoc, append-nil, arith,
}
use condukt.Policy
use condukt.Policy.{Policy, evaluate}
use condukt.Event.{SocketAddr, Inbound}
use condukt.Control
use condukt.Control.{Phase, Query}
use condukt.Tls
use condukt.Tls.Minting.{TlsError, rcgen}
use condukt.Conn.Handle.{
  Answers, Effect, emits, transfers, settle, last_event, calls_of, denial_reason, request_of,
  handle,
}
use condukt.Conn.Stages.{Stage, identified, begun, with_config, transfer_of}
use condukt.Proxy.{Proxy, Run}
use condukt.Proxy.Traces.{
  with_answers, IsConfigured, Tracks, at_start, at_decision, at_settled, at_securing, at_serving,
  at_end, at_end_unknown, handle_host_by,
}
use condukt.Proxy.Runs.{Run-Tracks}
use condukt.Proxy.Identified.{
  whole_of, IsAnswer-same_host, IsConfigured-same_host, handled, handle_by,
}

-- the stages in front of the decision
abbrev pub IsEarly : Stage → Type 0
IsEarly Stage.accepted = Unit
IsEarly (Stage.deciding dst host) = Unit
IsEarly (Stage.settled dst host reason) = ⊥
IsEarly (Stage.securing dst host) = ⊥
IsEarly (Stage.serving dst host transfer es) = ⊥
IsEarly Stage.finished = ⊥

-- the stages in front of a transfer
abbrev pub IsUnserved : Stage → Type 0
IsUnserved Stage.accepted = Unit
IsUnserved (Stage.deciding dst host) = Unit
IsUnserved (Stage.settled dst host reason) = Unit
IsUnserved (Stage.securing dst host) = Unit
IsUnserved (Stage.serving dst host transfer es) = ⊥
IsUnserved Stage.finished = ⊥

abbrev pub IsFinished : Stage → Type 0
IsFinished Stage.accepted = ⊥
IsFinished (Stage.deciding dst host) = ⊥
IsFinished (Stage.settled dst host reason) = ⊥
IsFinished (Stage.securing dst host) = ⊥
IsFinished (Stage.serving dst host transfer es) = ⊥
IsFinished Stage.finished = Unit

-- stands for the end of `server_config_for` as long as a handler has not come to it
abbrev pub unknown_config : Option TlsError
unknown_config = some (rcgen [])

-- What the connection has done is the beginning of what `handle` does with these ends of its calls,
-- and all of it once the handler has returned. Where the policy leaves the identified host to the
-- decider, `decider` is what the connection's own call has returned, and where the connection is
-- let through on port 443, `config` is what its call of `server_config_for` ended with, each unless
-- the handler has not come that far.
pub record Handles {S : Type 0} (p : Policy) (a : Answers) (phase : Phase) (own : Tls.Phase S)
    (stage : Stage) (tr : List Effect) : Type 0 where
  pub decider : Option Control.Decision
  pub config : Option TlsError
  pub rest : List Effect
  pub whole : tr ++ rest ≡ handle (with_answers a decider config) p
  pub complete : IsFinished stage → rest ≡ []
  pub answer :
      (dst : SocketAddr) (host : Str)
      → identified a ≡ some (dst, host)
      → (evaluate p host).0 ≡ Policy.Decision.decide
      → (phase ≡ Phase.returned decider) ⊎ ((decider ≡ none) × IsEarly stage)
  pub configured :
      (dst : SocketAddr) (host : Str)
      → identified a ≡ some (dst, host)
      → IsConfigured p dst host decider own config ⊎ ((config ≡ unknown_config) × IsUnserved stage)

-- what an allowed connection does from its transfer on
abbrev after_allowed : Answers → SocketAddr → Str → List Effect
after_allowed a dst host =
    transfers (calls_of a dst (request_of a dst host)) (transfer_of a dst host)
    ∷ emits (last_event (a.clock 3) (transfer_of a dst host))
    ∷ []

module _ {S : Type 0} (p : Policy) (a : Answers) where
  Handles-Tracks :
      {phase : Phase} (own : Tls.Phase S) {stage : Stage} {tr : List Effect}
      → Tracks p a phase own stage tr
      → Handles p a phase own stage tr
  unfolding identified
  Handles-Tracks own (at_start e) = record {
    decider = none;
    config = unknown_config;
    rest = handle (with_answers a none unknown_config) p;
    whole = ap (λ l. l ++ handle (with_answers a none unknown_config) p) e;
    complete = λ x. absurd x;
    answer = λ dst host i d. inr (refl, tt);
    configured = λ dst host i. inr (refl, tt);
  }
  Handles-Tracks own (at_decision {dst = dst} {host = host} i d e) =
      let left =
        settle (with_config a unknown_config) dst (request_of a dst host) (evaluate p host).1
          (denial_reason (evaluate p host).0 none) in
      record {
        decider = none;
        config = unknown_config;
        rest = left;
        whole =
            whole_of p a _ none unknown_config left i (
              ap (λ l. l ++ left) e ∙ sym (handle_host_by p a dst host none unknown_config _ refl));
        complete = λ x. absurd x;
        answer = λ dst host i d. inr (refl, tt);
        configured = λ dst host i. inr (refl, tt);
      }
  Handles-Tracks own (at_settled {dst = dst} {host = host} {reason = reason} v i answer r e) =
      let left =
        settle (with_config a unknown_config) dst (request_of a dst host) (evaluate p host).1
          reason in
      record {
        decider = v;
        config = unknown_config;
        rest = left;
        whole =
            whole_of p a _ v unknown_config left i
              (ap (λ l. l ++ left) e ∙ sym (handle_host_by p a dst host v unknown_config reason r));
        complete = λ x. absurd x;
        answer = λ dst' host' i' d. inl (IsAnswer-same_host p a v i i' answer d);
        configured = λ dst host i. inr (refl, tt);
      }
  Handles-Tracks own (at_securing {dst = dst} {host = host} v i answer r e) =
      let left = after_allowed (with_config a unknown_config) dst host in
      record {
        decider = v;
        config = unknown_config;
        rest = left;
        whole = whole_of p a _ v unknown_config left i (
            ap (λ l. l ++ left) e
            ∙ (append_assoc (begun p a dst host) _ _
                ∙ sym (handle_host_by p a dst host v unknown_config none r)));
        complete = λ x. absurd x;
        answer = λ dst' host' i' d. inl (IsAnswer-same_host p a v i i' answer d);
        configured = λ dst host i. inr (refl, tt);
      }
  Handles-Tracks own (at_serving {dst = dst} {host = host} v c i answer conf r e) =
      let left = emits (last_event (a.clock 3) (transfer_of (with_config a c) dst host)) ∷ [] in
      record {
        decider = v;
        config = c;
        rest = left;
        whole = whole_of p a _ v c left i (
            ap (λ l. l ++ left) e
            ∙ (append_assoc (begun p a dst host) _ _
                ∙ sym (handle_host_by p a dst host v c none r)));
        complete = λ x. absurd x;
        answer = λ dst' host' i' d. inl (IsAnswer-same_host p a v i i' answer d);
        configured = λ dst' host' i'. inl (IsConfigured-same_host p a v i i' own c conf);
      }
  Handles-Tracks own (at_end v c i answer conf e) = record {
    decider = v;
    config = c;
    rest = [];
    whole = whole_of p a _ v c [] i (append-nil _ ∙ e);
    complete = λ x. refl;
    answer = λ dst' host' i' d. inl (IsAnswer-same_host p a v i i' answer d);
    configured = λ dst' host' i'. inl (IsConfigured-same_host p a v i i' own c conf);
  }
  Handles-Tracks own (at_end_unknown i e) = record {
    decider = none;
    config = none;
    rest = [];
    whole =
        append-nil _
        ∙ (e
            ∙ sym (
                handle_by (with_answers a none none) p
                ∙ ap (handled (with_answers a none none) p) i));
    complete = λ x. refl;
    answer = λ dst host i' d. absurd (ground (arith, i, i'));
    configured = λ dst host i'. absurd (ground (arith, i, i'));
  }

-- Whatever order the handlers, their calls, the reader and the writer run in: what each connection
-- has done is the beginning of the effects of `handle`, and all of them once it has returned, with
-- what its own calls of `request_decision` and `server_config_for` ended with for the answers.
pub Run-Handles :
    {S : Type 0} {Mints : Str → S → Type 0} {p : Policy} {a : ℕ → Answers}
    {lines : List (Option Inbound)} {s : Proxy S} (t : ℕ)
    → Run p a Mints lines s
    → Handles p (a t) (s.channel.phase t) (s.ca.phase t) (s.stage t) (s.trace t)
Run-Handles {Mints = Mints} {p} {a} {s = s} t r =
    Handles-Tracks p (a t) (s.ca.phase t) (Run-Tracks Mints p a t r)
