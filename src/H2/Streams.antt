-- ===== src/H2/Streams.antt =====
-- The events of one stream.
use condukt.Prelude.{ℕ, ◌≡◌, ◌≢◌, refl, List, [], ◌∷◌, ◌++◌, Option, none, some, Str, codes, arith}
use condukt.Event.{new_event, with_reason, Request, request_opened, request_closed, Event}
use condukt.H2.{
  Body, Response, error_response, Incoming, Answers, Effect, emits, sends_request, responds,
  event_request, finish, proxy_stream,
}

-- The event's request is the stream's: its own identifier, and the connection's session and host.
pub record BelongsTo (a : Answers) (base : Request) (e : Event) : Type 0 where
  pub own_id : e.request.id ≡ a.id
  pub same_session : e.request.session_id ≡ base.session_id
  pub same_host : e.request.host ≡ base.host
  pub same_port : e.request.port ≡ base.port
  pub no_rule : e.matched_rule ≡ none

-- The end of a stream: what the closing event and the client's response say of the upstream.
abbrev pub Closes : Option ℕ → Str → Event → Response → Type 0
Closes (some status) text e answer =
    (e.request.response_status ≡ some status)
    × (e.reason ≡ none)
    × (answer ≡ record { status = status; body = Body.streamed })
Closes none text e answer =
    (e.reason ≡ some (codes "upstream_h2_send: " ++ text))
    × (answer ≡ record { status = 502; body = Body.full (codes "upstream send failed: " ++ text) })

pub record IsStream (a : Answers) (sent : Option ℕ) (base : Request) (effects : List Effect)
    : Type 0 where
  pub opened : Event
  pub closed : Event
  pub answer : Response
  pub order : effects ≡ emits opened ∷ sends_request ∷ emits closed ∷ responds answer ∷ []
  pub opens : (opened.kind ≡ request_opened) × (opened.reason ≡ none)
  pub closing : closed.kind ≡ request_closed
  pub opened_of : BelongsTo a base opened
  pub closed_of : BelongsTo a base closed
  pub same_request :
      (opened.request.method ≡ closed.request.method)
      × (opened.request.path ≡ closed.request.path)
      × (opened.request.request_headers ≡ closed.request.request_headers)
      × (opened.request.started_at ≡ closed.request.started_at)
  pub unfinished : opened.request.finished_at ≡ base.finished_at
  pub finished : closed.request.finished_at ≢ none
  pub ending : Closes sent a.send_error closed answer

finish-IsStream :
    (a : Answers) (req : Incoming) (base : Request) (sent : Option ℕ)
    → IsStream a sent base (
        emits (new_event (a.clock 1) request_opened (event_request a req base))
        ∷ sends_request
        ∷ finish a (event_request a req base) sent)
unfolding event_request
finish-IsStream a req base (some status) = record {
  opened = new_event (a.clock 1) request_opened (event_request a req base);
  closed = new_event (a.clock 3) request_closed (record (event_request a req base) {
    response_status = some status;
    finished_at = some (a.clock 2);
  });
  answer = record { status = status; body = Body.streamed };
  order = refl;
  opens = (refl, refl);
  closing = refl;
  opened_of = record {
    own_id = refl;
    same_session = refl;
    same_host = refl;
    same_port = refl;
    no_rule = refl;
  };
  closed_of = record {
    own_id = refl;
    same_session = refl;
    same_host = refl;
    same_port = refl;
    no_rule = refl;
  };
  same_request = (refl, refl, refl, refl);
  unfinished = refl;
  finished = λ e. absurd (ground (arith, e));
  ending = (refl, refl, refl);
}
finish-IsStream a req base none = record {
  opened = new_event (a.clock 1) request_opened (event_request a req base);
  closed =
      with_reason
        (new_event (a.clock 3) request_closed
          (record (event_request a req base) { finished_at = some (a.clock 2) }))
        (codes "upstream_h2_send: " ++ a.send_error);
  answer = error_response (codes "upstream send failed: " ++ a.send_error);
  order = refl;
  opens = (refl, refl);
  closing = refl;
  opened_of = record {
    own_id = refl;
    same_session = refl;
    same_host = refl;
    same_port = refl;
    no_rule = refl;
  };
  closed_of = record {
    own_id = refl;
    same_session = refl;
    same_host = refl;
    same_port = refl;
    no_rule = refl;
  };
  same_request = (refl, refl, refl, refl);
  unfinished = refl;
  finished = λ e. absurd (ground (arith, e));
  ending = (refl, refl);
}

-- Whatever the upstream answers, a stream emits `request_opened` before its request is sent and
-- `request_closed` after it, exactly once each and for the same request under the stream's own
-- identifier; an upstream's status goes into the closing event and with its body to the client, and
-- a failure to send gives the closing event a reason and the client the status 502 with the error.
pub proxy_stream-IsStream :
    (a : Answers) (req : Incoming) (base : Request)
    → IsStream a a.sent base (proxy_stream a req base)
unfolding proxy_stream
proxy_stream-IsStream a req base = finish-IsStream a req base a.sent
