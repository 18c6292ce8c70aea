-- ===== src/Event.antt =====
-- native/condukt_egress/src/proxy/event.rs: requests, their lifecycle events and the frames of the
-- control channel. Identifiers and times come from the outside and are arguments.
use condukt.Prelude.{ℕ, Option, none, some, Str, codes, ◌==◌, if◌then◌else◌}
use condukt.Prelude.Map.{Map}
use condukt.Policy.{MatchedRule}

pub data Kind : Type 0 where
  request_opened : Kind
  request_closed : Kind
  request_allowed : Kind
  request_denied : Kind
  request_failed : Kind

-- an address with its text forms, which the standard library gives
pub record SocketAddr : Type 0 where
  pub ip : Str
  pub port : ℕ
  pub shown : Str

-- `DateTime<Utc>`, as the clock's reading
abbrev pub DateTime : Type 0
DateTime = ℕ

pub record Request : Type 0 where
  pub id : Str
  pub session_id : Option Str
  pub host : Str
  pub port : ℕ
  pub remote_addr : Option Str
  pub scheme : Str
  pub method : Option Str
  pub path : Option Str
  pub request_headers : Option (Map Str)
  pub response_status : Option ℕ
  pub bytes_in : ℕ
  pub bytes_out : ℕ
  pub started_at : DateTime
  pub finished_at : Option DateTime

abbrev pub https_port : ℕ
https_port = 443

-- `if port == 443 { "https" } else { "http" }`
abbrev pub scheme_of : ℕ → Str
scheme_of port = if port == https_port then codes "https" else codes "http"

abbrev pub shown_addr : Option SocketAddr → Option Str
shown_addr none = none
shown_addr (some a) = some a.shown

-- `Request::new`, with the fresh identifier and the time
unfoldable pub new_request : Str → DateTime → Str → ℕ → Option SocketAddr → Option Str → Request
new_request id now host port remote session_id = record {
  id = id;
  session_id = session_id;
  host = host;
  port = port;
  remote_addr = shown_addr remote;
  scheme = scheme_of port;
  method = none;
  path = none;
  request_headers = none;
  response_status = none;
  bytes_in = 0;
  bytes_out = 0;
  started_at = now;
  finished_at = none;
}

pub record Event : Type 0 where
  pub kind : Kind
  pub request : Request
  pub reason : Option Str
  pub matched_rule : Option MatchedRule
  pub at : DateTime

-- `Event::new`, with the time
abbrev pub new_event : DateTime → Kind → Request → Event
new_event now kind request = record {
  kind = kind;
  request = request;
  reason = none;
  matched_rule = none;
  at = now;
}

abbrev pub with_reason : Event → Str → Event
with_reason e reason = record e { reason = some reason }

abbrev pub with_matched_rule : Event → MatchedRule → Event
with_matched_rule e rule = record e { matched_rule = some rule }

pub data DecisionAction : Type 0 where
  allow : DecisionAction
  deny : DecisionAction

pub data Outbound : Type 0 where
  event : Event → Outbound
  decision_request : Str → Option Str → Str → ℕ → Str → Outbound

pub data Inbound : Type 0 where
  decision : Str → DecisionAction → Option Str → Inbound
  unknown : Inbound
