-- ===== src/Conn/Handle.antt =====
-- `handle`: from the redirected connection to its last event. The result is the list of what it
-- does to the outside, in order; a transfer is the calls that set it up, and what it carries and the
-- streams of an HTTP/2 connection do.
pub mod Interleaved
pub mod Lifecycle
pub mod Attribution
pub mod Contact
pub mod Decider
pub mod Buffer
pub mod Verified
pub mod Accepting
mod Tests
use condukt.Prelude.{
  ℕ, Bool, true, false, List, [], ◌∷◌, ◌++◌, Option, none, some, Str, codes, ◌==◌, if◌then◌else◌,
  is_empty, Result, ok, err,
}
use condukt.Prelude.Bytes.{Bytes}
use condukt.Policy
use condukt.Policy.{Policy, MatchedRule, DenyReason, as_str, evaluate}
use condukt.Event.{
  SocketAddr, DateTime, https_port, scheme_of, Request, new_request, Kind, request_opened,
  request_closed, request_allowed, request_denied, request_failed, Event, new_event, with_reason,
  with_matched_rule, DecisionAction,
}
use condukt.Control
use condukt.Control.{Query}
use condukt.OrigDst.{Sockopt, original_dst}
use condukt.Sni.{TlsParser}
use condukt.Http1
use condukt.Conn.Host.{identify_host}
use condukt.Conn.Outcome.{Outcome}
use condukt.Conn.Transfer.{Streams, Transfer}
use condukt.Conn.Https.{TlsAnswers, https_mitm, http_forward}
use condukt.Conn.Https.Calls.{Call, https_calls, forward_calls}

-- What the outside answers during one connection. `none` is a failure, and for `decider` the call
-- of `request_decision` that returned nothing.
pub record Answers : Type 0 where
  pub session_id : Option Str
  pub peer_addr : Option SocketAddr
  pub little_endian : Bool
  pub getsockopt : ℕ → ℕ → Sockopt
  pub peek : Option Bytes
  pub id : Str
  pub clock : ℕ → DateTime
  pub tls : TlsParser
  pub decider : Option Control.Decision
  pub https : TlsAnswers
  pub connect : Option Str
  pub httparse : Bytes → Http1.Status
  pub streams : Streams

pub data Effect : Type 0 where
  emits : Event → Effect
  asks : Query → ℕ → Effect
  shuts_down : Effect
  transfers : List Call → Transfer → Effect

-- the reason in a decider's denial
unfoldable pub decider_reason : Option Str → Str
decider_reason none = codes "decider_deny"
decider_reason (some []) = codes "decider_deny"
decider_reason (some (c ∷ r)) = codes "decider: " ++ (c ∷ r)

unfoldable pub decider_denial : Option Control.Decision → Option Str
unfolding decider_reason
decider_denial none = some (codes "decider_timeout")
decider_denial (some d) = elim d.action [
  | DecisionAction.allow ↦ none
  | DecisionAction.deny ↦ some (decider_reason d.reason)
]

unfoldable pub denial_reason : Policy.Decision → Option Control.Decision → Option Str
unfolding decider_denial as_str
denial_reason Policy.Decision.allow decider = none
denial_reason (Policy.Decision.deny reason) decider = some (as_str reason)
denial_reason Policy.Decision.decide decider = decider_denial decider

-- the call of `request_decision`, made for `Decide` alone
abbrev pub asking : Policy.Decision → Query → ℕ → List Effect
asking Policy.Decision.decide q timeout = asks q timeout ∷ []
asking _ q timeout = []

abbrev pub attach : Option MatchedRule → Event → Event
attach none e = e
attach (some rule) e = with_matched_rule e rule

abbrev pub last_event : ℕ → Transfer → Event
last_event now t = elim t.outcome [
  | ok _ ↦ new_event now request_closed t.request
  | err e ↦ with_reason (new_event now request_failed t.request) e
]

abbrev pub serve : Answers → ℕ → Request → Transfer
serve a port request =
    if port == https_port
    then https_mitm a.https (Http1.parse a.httparse) a.streams request
    else http_forward a.connect (Http1.parse a.httparse) a.streams request

abbrev pub calls_of : Answers → SocketAddr → Request → List Call
calls_of a dst request =
    if dst.port == https_port then https_calls request.host dst a.https else forward_calls dst

-- from the denial reason on
abbrev pub settle : Answers → SocketAddr → Request → Option MatchedRule → Option Str → List Effect
settle a dst request rule (some reason) =
    emits (attach rule (with_reason (new_event (a.clock 2) request_denied request) reason))
    ∷ shuts_down
    ∷ []
settle a dst request rule none =
    emits (attach rule (new_event (a.clock 2) request_allowed request))
    ∷ transfers (calls_of a dst request) (serve a dst.port request)
    ∷ emits (last_event (a.clock 3) (serve a dst.port request))
    ∷ []

abbrev pub query_of : Request → Query
query_of r = record {
  id = r.id;
  session_id = r.session_id;
  host = r.host;
  port = r.port;
  scheme = r.scheme;
}

abbrev pub request_of : Answers → SocketAddr → Str → Request
request_of a dst host =
    record (new_request a.id (a.clock 0) host dst.port a.peer_addr a.session_id) {
      scheme = scheme_of dst.port;
    }

-- from the identified host on
unfoldable pub handle_host : Answers → Policy → SocketAddr → Str → List Effect
unfolding new_request evaluate denial_reason https_mitm http_forward https_calls
handle_host a p dst host =
    let request = request_of a dst host in
    let (decision, rule) = evaluate p host in
    emits (new_event (a.clock 1) request_opened request)
    ∷ (asking decision (query_of request) p.decide_timeout_ms
        ++ settle a dst request rule (denial_reason decision a.decider))

abbrev pub handle_peeked : Answers → Policy → SocketAddr → Option Bytes → List Effect
handle_peeked a p dst none = []
handle_peeked a p dst (some bytes) = handle_host a p dst (identify_host a.tls bytes dst.port dst.ip)

abbrev pub handle_dst : Answers → Policy → Result Str SocketAddr → List Effect
handle_dst a p (err e) = []
handle_dst a p (ok dst) = handle_peeked a p dst a.peek

unfoldable pub handle : Answers → Policy → List Effect
unfolding handle_host identify_host original_dst
handle a p = handle_dst a p (original_dst a.little_endian a.getsockopt)
