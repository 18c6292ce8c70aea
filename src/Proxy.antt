-- ===== src/Proxy.antt =====
-- native/condukt_egress/src/proxy/conn.rs and native/condukt_egress/src/proxy/mod.rs: the handlers of
-- all connections at once, over one control channel and one CA. A handler is cut where it emits an
-- event, where `request_decision` or `server_config_for` is under way, and where it transfers; in
-- between, other handlers, the reader and the writer of the channel run.
pub mod Traces
pub mod Runs
pub mod Identified
pub mod Handling
pub mod Safety
pub mod Verified
pub mod Presents
pub mod Tests
use condukt.Prelude.{
  ℕ, ◌≡◌, Bool, true, false, List, [], ◌∷◌, ◌++◌, Option, none, some, Str, ◌==◌, if◌then◌else◌,
  Result, ok, err,
}
use condukt.Prelude.Bytes.{Bytes}
use condukt.Policy
use condukt.Policy.{Policy, as_str, evaluate}
use condukt.Event.{
  SocketAddr, https_port, Event, Inbound, new_event, new_request, with_reason, request_opened,
  request_allowed, request_denied,
}
use condukt.H2
use condukt.Control
use condukt.Control.{Query, Phase, Channel, emit, handle_line, recv}
use condukt.Control.Steps
use condukt.Control.Waiting.{turn}
use condukt.Tls
use condukt.Tls.{CaContext}
use condukt.Tls.Cache
use condukt.Tls.Calls.{caller}
use condukt.Tls.Minting.{TlsError}
use condukt.Conn.Transfer.{Transfer}
use condukt.Conn.Https.Calls.{https_calls}
use condukt.OrigDst.{original_dst}
use condukt.Conn.Host.{identify_host}
use condukt.Conn.Handle.{
  Answers, Effect, emits, shuts_down, transfers, decider_denial, asking, attach, last_event, serve,
  calls_of, query_of, request_of,
}
use condukt.Conn.Handle.Buffer.{stream_events, emit_all}
use condukt.Conn.Stages.{
  Stage, Moved, stays, at_peek, at_dst, identified, opened_event, begun, stage_of, denied_event,
  allowed_event, with_config, transfer_of, opening, resume, carry, secure, advance, query_at,
  host_of,
}

-- Connections are numbered, and so are the calls of `request_decision` and `server_config_for`, each
-- by its connection. `trace t` is what connection `t` did, in order.
pub record Proxy (S : Type 0) : Type 0 where
  pub channel : Channel
  pub ca : CaContext S
  pub stage : ℕ → Stage
  pub trace : ℕ → List Effect

abbrev pub update {ℓ} : {A : Type ℓ} → (ℕ → A) → ℕ → A → ℕ → A
update f t a u = if t == u then a else f u

module _ {S : Type 0} (p : Policy) (a : ℕ → Answers) where
  -- the next step of the handler of connection `t`
  unfoldable pub move : ℕ → Proxy S → Proxy S
  unfolding identified begun emit decider_denial as_str https_calls
  move t s =
      let moved = advance p (a t) (s.stage t) (s.channel.phase t) (s.ca.phase t) in
      record s {
        channel = emit_all moved.emitted s.channel;
        stage = update s.stage t moved.stage;
        trace = update s.trace t (s.trace t ++ moved.effects);
      }

  unfoldable pub start : Proxy S
  unfolding identified
  start = record {
    channel = Control.start (λ t. query_at (a t) (identified (a t)));
    ca = Tls.start (λ t. host_of (identified (a t)));
    stage = λ t. Stage.accepted;
    trace = λ t. [];
  }

  -- One step of one party: a handler, a handler's call of `request_decision` or, with `Mints` for
  -- what `mint` may return, of `server_config_for`, the reader of the channel, whose lines label the
  -- step, and its writer.
  pub data Step (Mints : Str → S → Type 0)
      : Proxy S → Option (Option Inbound) → Proxy S → Type 0 where
    moves : {s : Proxy S} (t : ℕ) → Step Mints s none (move t s)
    calls :
        {s : Proxy S} {c : Channel} {dst : SocketAddr} {host : Str} (t : ℕ)
        → s.stage t ≡ Stage.deciding dst host
        → (step : Steps.Step s.channel none c) → turn t step ≡ 1
        → Step Mints s none (record s { channel = c })
    secures :
        {s : Proxy S} {ca : CaContext S} {dst : SocketAddr} {host : Str} (t : ℕ)
        → s.stage t ≡ Stage.securing dst host
        → dst.port ≡ https_port
        → (step : Cache.Step Mints s.ca ca) → caller step ≡ t
        → Step Mints s none (record s { ca = ca })
    reads :
        {s : Proxy S} (line : Option Inbound)
        → Step Mints s (some line) (record s { channel = handle_line line s.channel })
    writes : {s : Proxy S} → Step Mints s none (record s { channel = (recv s.channel).1 })

  -- A run from the start, with the lines handled so far, the latest first.
  pub data Run (Mints : Str → S → Type 0) : List (Option Inbound) → Proxy S → Type 0 where
    here : Run Mints [] start
    next :
        {lines : List (Option Inbound)} {s r : Proxy S} (label : Option (Option Inbound))
        → Run Mints lines s
        → Step Mints s label r
        → Run Mints (Steps.heard label lines) r
