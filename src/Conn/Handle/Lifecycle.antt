-- ===== src/Conn/Handle/Lifecycle.antt =====
-- The events of one connection.
use condukt.Prelude.{
  ℕ, ◌≡◌, refl, List, [], ◌∷◌, ◌++◌, Option, none, some, Str, All, ok, err, Result,
}
use condukt.Prelude.Bytes.{Bytes}
use condukt.Policy
use condukt.Policy.{Policy, MatchedRule, evaluate}
use condukt.Event.{
  SocketAddr, Request, Kind, request_opened, request_closed, request_allowed, request_denied,
  request_failed, Event,
}
use condukt.Control.{Query}
use condukt.OrigDst.{original_dst}
use condukt.Conn.Host.{identify_host}
use condukt.H2
use condukt.H2.Connection.Events.{IsStreamKind, IsStreamEvent, ByStream}
use condukt.Conn.Handle.Interleaved.{streams-serve}
use condukt.Conn.Outcome.{Outcome}
use condukt.Conn.Transfer.{Transfer}
use condukt.Conn.Handle.{
  Answers, Effect, emits, asks, shuts_down, transfers, asking, attach, last_event, serve, settle,
  request_of, handle_host, handle_peeked, handle_dst, handle,
}

-- the kinds of the events that the streams of an HTTP/2 connection emitted, in order
abbrev pub stream_kinds : List (ℕ × H2.Effect) → List Kind
stream_kinds [] = []
stream_kinds ((t, H2.emits e) ∷ rest) = e.kind ∷ stream_kinds rest
stream_kinds ((t, H2.sends_request) ∷ rest) = stream_kinds rest
stream_kinds ((t, H2.responds status) ∷ rest) = stream_kinds rest

-- the kinds of the emitted events, in order, those of a transfer's streams among them
abbrev pub kinds : List Effect → List Kind
kinds [] = []
kinds (emits e ∷ rest) = e.kind ∷ kinds rest
kinds (asks q timeout ∷ rest) = kinds rest
kinds (shuts_down ∷ rest) = kinds rest
kinds (transfers calls t ∷ rest) = stream_kinds t.streams ++ kinds rest

pub data IsLifecycle : List Kind → Type 0 where
  dropped : IsLifecycle []
  refused : IsLifecycle (request_opened ∷ request_denied ∷ [])
  completed :
      (streams : List Kind)
      → All IsStreamKind streams
      → IsLifecycle (request_opened ∷ request_allowed ∷ (streams ++ request_closed ∷ []))
  broken :
      (streams : List Kind)
      → All IsStreamKind streams
      → IsLifecycle (request_opened ∷ request_allowed ∷ (streams ++ request_failed ∷ []))

IsStreamKind-stream_kinds :
    (base : Request) (trace : List (ℕ × H2.Effect))
    → All (ByStream (IsStreamEvent base)) trace
    → All IsStreamKind (stream_kinds trace)
IsStreamKind-stream_kinds base [] h = tt
IsStreamKind-stream_kinds base ((t, H2.emits e) ∷ rest) h =
    (h.0.0, IsStreamKind-stream_kinds base rest h.1)
IsStreamKind-stream_kinds base ((t, H2.sends_request) ∷ rest) h =
    IsStreamKind-stream_kinds base rest h.1
IsStreamKind-stream_kinds base ((t, H2.responds status) ∷ rest) h =
    IsStreamKind-stream_kinds base rest h.1

-- The list of effects of a handled host, from the decision on.
kinds-asking :
    (d : Policy.Decision) (q : Query) (timeout : ℕ) (rest : List Effect)
    → kinds (asking d q timeout ++ rest) ≡ kinds rest
kinds-asking Policy.Decision.decide q timeout rest = refl
kinds-asking Policy.Decision.allow q timeout rest = refl
kinds-asking (Policy.Decision.deny r) q timeout rest = refl

IsLifecycle-last :
    (now : ℕ) (t : Transfer)
    → All IsStreamKind (stream_kinds t.streams)
    → IsLifecycle (
        request_opened ∷ request_allowed ∷ (stream_kinds t.streams ++ (last_event now t).kind ∷ []))
IsLifecycle-last now t h = last t.outcome refl
  where
    last :
        (o : Outcome (Unit {0}))
        → t.outcome ≡ o
        → IsLifecycle (
            request_opened
            ∷ request_allowed
            ∷ (stream_kinds t.streams ++ (last_event now t).kind ∷ []))
    last (ok _) e = rw e (completed (stream_kinds t.streams) h)
    last (err x) e = rw e (broken (stream_kinds t.streams) h)

kind-attach : (rule : Option MatchedRule) (e : Event) → (attach rule e).kind ≡ e.kind
kind-attach none e = refl
kind-attach (some rule) e = refl

IsLifecycle-settle :
    (a : Answers) (dst : SocketAddr) (r : Request) (rule : Option MatchedRule) (denial : Option Str)
    → IsLifecycle (request_opened ∷ kinds (settle a dst r rule denial))
IsLifecycle-settle a dst r rule (some reason) = rw kind-attach refused
IsLifecycle-settle a dst r rule none = rw kind-attach (
    IsLifecycle-last (a.clock 3) (serve a dst.port r)
      (IsStreamKind-stream_kinds r (serve a dst.port r).streams (streams-serve a dst.port r)))

IsLifecycle-handle_host :
    (a : Answers) (p : Policy) (dst : SocketAddr) (host : Str)
    → IsLifecycle (kinds (handle_host a p dst host))
unfolding handle_host
IsLifecycle-handle_host a p dst host =
    rw kinds-asking (IsLifecycle-settle a dst (request_of a dst host) _ _)

IsLifecycle-handle_dst :
    (a : Answers) (p : Policy) (dst : Result Str SocketAddr)
    → IsLifecycle (kinds (handle_dst a p dst))
IsLifecycle-handle_dst a p (err e) = dropped
IsLifecycle-handle_dst a p (ok dst) = IsLifecycle-handle_peeked a p dst a.peek
  where
    IsLifecycle-handle_peeked :
        (a : Answers) (p : Policy) (dst : SocketAddr) (peek : Option Bytes)
        → IsLifecycle (kinds (handle_peeked a p dst peek))
    IsLifecycle-handle_peeked a p dst none = dropped
    IsLifecycle-handle_peeked a p dst (some bytes) =
        IsLifecycle-handle_host a p dst (identify_host a.tls bytes dst.port dst.ip)

-- Whatever the outside answers, one connection emits nothing, or `request_opened` and
-- `request_denied`, or `request_opened`, `request_allowed`, then what the streams of an HTTP/2
-- connection emit, which is `request_opened` and `request_closed` alone, and last exactly one of
-- `request_closed` and `request_failed`.
pub handle-IsLifecycle : (a : Answers) (p : Policy) → IsLifecycle (kinds (handle a p))
unfolding handle
handle-IsLifecycle a p = IsLifecycle-handle_dst a p (original_dst a.little_endian a.getsockopt)
