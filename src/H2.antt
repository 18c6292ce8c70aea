-- ===== src/H2.antt =====
-- native/condukt_egress/src/proxy/h2.rs: one stream of an HTTP/2 connection. The crate `hyper` and
-- the sockets are a parameter; the bodies are streamed by it and are not modelled.
pub mod Streams
pub mod Connection
mod Tests
use condukt.Prelude.{ℕ, Bool, true, false, List, [], ◌∷◌, ◌++◌, Option, none, some, Str, codes}
use condukt.Prelude.Map
use condukt.Prelude.Map.{Map}
use condukt.Event.{
  DateTime, Request, Kind, request_opened, request_closed, Event, new_event, with_reason,
}

-- A header of the request, its value as text where it is visible ASCII.
pub record Header : Type 0 where
  pub name : Str
  pub to_str : Option Str

-- what the stream's request shows
pub record Incoming : Type 0 where
  pub method : Str
  pub path_and_query : Option Str
  pub headers : List Header

-- What the outside answers during one stream: a fresh identifier, the times, and the upstream's
-- status, or the error of sending.
pub record Answers : Type 0 where
  pub id : Str
  pub clock : ℕ → DateTime
  pub sent : Option ℕ
  pub send_error : Str

-- a body that is given whole, or passed on from the upstream as it comes
pub data Body : Type 0 where
  full : Str → Body
  streamed : Body

pub record Response : Type 0 where
  pub status : ℕ
  pub body : Body

pub data Effect : Type 0 where
  emits : Event → Effect
  sends_request : Effect
  responds : Response → Effect

abbrev pub unwrap_or : Option Str → Str → Str
unwrap_or (some a) d = a
unwrap_or none d = d

-- `collect` into the map: a later value of a name replaces an earlier one
unfoldable pub collect : List Header → Map Str → Map Str
collect [] hmap = hmap
collect (h ∷ rest) hmap = collect rest (Map.insert h.name (unwrap_or h.to_str []) hmap)

unfoldable pub event_request : Answers → Incoming → Request → Request
unfolding collect
event_request a req base = record base {
  id = a.id;
  method = some req.method;
  path = some (unwrap_or req.path_and_query (codes "/"));
  request_headers = some (collect req.headers []);
  started_at = a.clock 0;
}

-- `error_response`, whose builder does not fail for this status
abbrev pub error_response : Str → Response
error_response message = record { status = 502; body = Body.full message }

abbrev pub finish : Answers → Request → Option ℕ → List Effect
finish a event_req (some status) =
    emits (
      new_event (a.clock 3) request_closed
        (record event_req { response_status = some status; finished_at = some (a.clock 2) }))
    ∷ responds (record { status = status; body = Body.streamed })
    ∷ []
finish a event_req none =
    emits (
      with_reason
        (new_event (a.clock 3) request_closed (record event_req { finished_at = some (a.clock 2) }))
        (codes "upstream_h2_send: " ++ a.send_error))
    ∷ responds (error_response (codes "upstream send failed: " ++ a.send_error))
    ∷ []

unfoldable pub proxy_stream : Answers → Incoming → Request → List Effect
unfolding event_request
proxy_stream a req base =
    let event_req = event_request a req base in
    emits (new_event (a.clock 1) request_opened event_req)
    ∷ sends_request
    ∷ finish a event_req a.sent
