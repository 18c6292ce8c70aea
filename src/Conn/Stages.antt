-- ===== src/Conn/Stages.antt =====
-- native/condukt_egress/src/proxy/conn.rs: `handle`, cut where it emits an event, where
-- `request_decision` or `server_config_for` is under way, and where it transfers.
use condukt.Prelude.{
  Bool, true, false, List, [], ◌∷◌, Option, none, some, Str, ◌==◌, Result, ok, err,
}
use condukt.Prelude.Bytes.{Bytes}
use condukt.Policy
use condukt.Policy.{Policy, as_str, evaluate}
use condukt.Event.{
  SocketAddr, https_port, Event, new_event, new_request, with_reason, request_opened,
  request_allowed, request_denied,
}
use condukt.Control.{Query, Phase}
use condukt.Tls
use condukt.Tls.{CaContext}
use condukt.Tls.Minting.{TlsError}
use condukt.Conn.Transfer.{Transfer}
use condukt.OrigDst.{original_dst}
use condukt.Conn.Host.{identify_host}
use condukt.Conn.Handle.{
  Answers, Effect, emits, shuts_down, transfers, decider_denial, asking, attach, last_event, serve,
  calls_of, query_of, request_of,
}
use condukt.Conn.Handle.Buffer.{stream_events}

-- Where a handler stands: spawned; at the call of `request_decision`; with a reason to deny, or none;
-- allowed, on port 443 at the call of `server_config_for`; in a transfer whose streams have events to
-- emit; and returned. The address is the destination and the text the identified host.
pub data Stage : Type 0 where
  accepted : Stage
  deciding : SocketAddr → Str → Stage
  settled : SocketAddr → Str → Option Str → Stage
  securing : SocketAddr → Str → Stage
  serving : SocketAddr → Str → Transfer → List Event → Stage
  finished : Stage

-- one step of a handler: where it then stands, what it did, and the events that it emitted
pub record Moved : Type 0 where
  pub stage : Stage
  pub effects : List Effect
  pub emitted : List Event

abbrev pub stays : Stage → Moved
stays stage = record { stage = stage; effects = []; emitted = [] }

-- the destination and the host of a connection, where both can be told
abbrev pub at_peek : Answers → SocketAddr → Option Bytes → Option (SocketAddr × Str)
at_peek a dst none = none
at_peek a dst (some bytes) = some (dst, identify_host a.tls bytes dst.port dst.ip)

abbrev pub at_dst : Answers → Result Str SocketAddr → Option (SocketAddr × Str)
at_dst a (err e) = none
at_dst a (ok dst) = at_peek a dst a.peek

unfoldable pub identified : Answers → Option (SocketAddr × Str)
unfolding original_dst identify_host
identified a = at_dst a (original_dst a.little_endian a.getsockopt)

abbrev pub opened_event : Answers → SocketAddr → Str → Event
opened_event a dst host = new_event (a.clock 1) request_opened (request_of a dst host)

-- what a handler has done when the policy is evaluated, and the call that it makes then
unfoldable pub begun : Policy → Answers → SocketAddr → Str → List Effect
unfolding new_request evaluate
begun p a dst host =
    emits (opened_event a dst host)
    ∷ asking (evaluate p host).0 (query_of (request_of a dst host)) p.decide_timeout_ms

abbrev pub stage_of : Policy.Decision → SocketAddr → Str → Stage
stage_of Policy.Decision.allow dst host = Stage.settled dst host none
stage_of (Policy.Decision.deny reason) dst host = Stage.settled dst host (some (as_str reason))
stage_of Policy.Decision.decide dst host = Stage.deciding dst host

abbrev pub denied_event : Policy → Answers → SocketAddr → Str → Str → Event
denied_event p a dst host reason =
    attach (evaluate p host).1
      (with_reason (new_event (a.clock 2) request_denied (request_of a dst host)) reason)

abbrev pub allowed_event : Policy → Answers → SocketAddr → Str → Event
allowed_event p a dst host =
    attach (evaluate p host).1 (new_event (a.clock 2) request_allowed (request_of a dst host))

-- the answers of the outside with what `server_config_for` ended with
abbrev pub with_config : Answers → Option TlsError → Answers
with_config a c = record a { https = record a.https { server_config = c } }

abbrev pub transfer_of : Answers → SocketAddr → Str → Transfer
transfer_of a dst host = serve a dst.port (request_of a dst host)

abbrev pub opening : Policy → Answers → Option (SocketAddr × Str) → Moved
opening p a none = stays Stage.finished
opening p a (some (dst, host)) = record {
  stage = stage_of (evaluate p host).0 dst host;
  effects = begun p a dst host;
  emitted = opened_event a dst host ∷ [];
}

-- the answer of `request_decision`, once it has returned
abbrev pub resume : SocketAddr → Str → Phase → Moved
resume dst host Phase.starting = stays (Stage.deciding dst host)
resume dst host Phase.registered = stays (Stage.deciding dst host)
resume dst host Phase.waiting = stays (Stage.deciding dst host)
resume dst host Phase.cleaning = stays (Stage.deciding dst host)
resume dst host (Phase.returned decision) = stays (Stage.settled dst host (decider_denial decision))

-- The transfer, once `server_config_for` has ended: one step, in which all that it waits for has come.
abbrev pub carry : Answers → SocketAddr → Str → Moved
carry a dst host =
    let transfer = transfer_of a dst host in
    record {
      stage = Stage.serving dst host transfer (stream_events transfer.streams);
      effects = transfers (calls_of a dst (request_of a dst host)) transfer ∷ [];
      emitted = [];
    }

-- `true` for port 443, from the phase of the call of `server_config_for`
abbrev pub secure : {S : Type 0} → Answers → SocketAddr → Str → Bool → Tls.Phase S → Moved
secure a dst host false own = carry (with_config a none) dst host
secure a dst host true Tls.Phase.starting = stays (Stage.securing dst host)
secure a dst host true Tls.Phase.minting = stays (Stage.securing dst host)
secure a dst host true (Tls.Phase.minted fresh) = stays (Stage.securing dst host)
secure a dst host true (Tls.Phase.returned cfg) = carry (with_config a none) dst host
secure a dst host true (Tls.Phase.failed e) = carry (with_config a (some e)) dst host

-- from the phases of the connection's own calls
abbrev pub advance : {S : Type 0} → Policy → Answers → Stage → Phase → Tls.Phase S → Moved
advance p a Stage.accepted phase own = opening p a (identified a)
advance p a (Stage.deciding dst host) phase own = resume dst host phase
advance p a (Stage.settled dst host (some reason)) phase own = record {
  stage = Stage.finished;
  effects = emits (denied_event p a dst host reason) ∷ shuts_down ∷ [];
  emitted = denied_event p a dst host reason ∷ [];
}
advance p a (Stage.settled dst host none) phase own = record {
  stage = Stage.securing dst host;
  effects = emits (allowed_event p a dst host) ∷ [];
  emitted = allowed_event p a dst host ∷ [];
}
advance p a (Stage.securing dst host) phase own = secure a dst host (dst.port == https_port) own
advance p a (Stage.serving dst host transfer (e ∷ es)) phase own = record {
  stage = Stage.serving dst host transfer es;
  effects = [];
  emitted = e ∷ [];
}
advance p a (Stage.serving dst host transfer []) phase own = record {
  stage = Stage.finished;
  effects = emits (last_event (a.clock 3) transfer) ∷ [];
  emitted = last_event (a.clock 3) transfer ∷ [];
}
advance p a Stage.finished phase own = stays Stage.finished

-- the query of a connection; one that cannot be told makes none
abbrev pub query_at : Answers → Option (SocketAddr × Str) → Query
query_at a none = record { id = a.id; session_id = a.session_id; host = []; port = 0; scheme = [] }
query_at a (some (dst, host)) = query_of (request_of a dst host)

-- the host for which a configuration is minted
abbrev pub host_of : Option (SocketAddr × Str) → Str
host_of none = []
host_of (some (dst, host)) = host
