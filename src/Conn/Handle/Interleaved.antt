-- ===== src/Conn/Handle/Interleaved.antt =====
-- The streams of an HTTP/2 connection within its handler.
use condukt.Prelude.{
  ℕ, Bool, true, false, [], Option, none, some, Str, ◌==◌, if◌then◌else◌, All, ok, err,
}
use condukt.Prelude.Bytes.{Bytes}
use condukt.Event.{https_port, Request}
use condukt.Http1
use condukt.Http1.{Head}
use condukt.H2.Connection.Events.{IsStreamEvent, ByStream, handle-IsStreamEvent}
use condukt.Conn.Outcome.{Outcome}
use condukt.Conn.Transfer.{
  Streams, Transfer, HeadRead, read_head, with_head, finish, forward_head, exchange, after_head,
}
use condukt.Conn.Https.{TlsAnswers, https_setup, https_rest, https_mitm, http_rest, http_forward}
use condukt.Conn.Handle.{Answers, serve}

-- each event of the transfer's streams has the session and the host of the request
abbrev Belongs : Request → Transfer → Type 0
Belongs r t = All (ByStream (IsStreamEvent r)) t.streams

streams-forward_head :
    (base : Request) (w : Option Str) (h : HeadRead) (s : Streams) (r : Request)
    → Belongs base (forward_head w h s r)
unfolding finish
streams-forward_head base (some e) h s r = tt
streams-forward_head base none h s r = tt

streams-exchange :
    (parse : Bytes → Head) (s : Streams) (r : Request) → Belongs r (exchange parse s r)
unfolding exchange
streams-exchange parse s r = at_head (read_head parse [] s.client_reads)
  where
    at_head : (o : Outcome HeadRead) → Belongs r (after_head s r o)
    at_head (err e) = tt
    at_head (ok h) = streams-forward_head r s.head_write h s (with_head h.head r)

streams-https_mitm :
    (a : TlsAnswers) (parse : Bytes → Head) (s : Streams) (r : Request)
    → Belongs r (https_mitm a parse s r)
unfolding https_mitm
streams-https_mitm a parse s r = at_setup (https_setup a)
  where
    at_setup : (o : Outcome Bool) → Belongs r (https_rest o a parse s r)
    at_setup (err e) = tt
    at_setup (ok true) = handle-IsStreamEvent a.h2 r
    at_setup (ok false) = streams-exchange parse s r

streams-http_forward :
    (connect : Option Str) (parse : Bytes → Head) (s : Streams) (r : Request)
    → Belongs r (http_forward connect parse s r)
unfolding http_forward
streams-http_forward connect parse s r = at_connect connect
  where
    at_connect : (o : Option Str) → Belongs r (http_rest o parse s r)
    at_connect (some e) = tt
    at_connect none = streams-exchange parse s r

pub streams-serve :
    (a : Answers) (port : ℕ) (r : Request)
    → All (ByStream (IsStreamEvent r)) (serve a port r).streams
streams-serve a port r = by_port (port == https_port)
  where
    by_port :
        (b : Bool)
        → Belongs r (
            if b
            then https_mitm a.https (Http1.parse a.httparse) a.streams r
            else http_forward a.connect (Http1.parse a.httparse) a.streams r)
    by_port true = streams-https_mitm a.https (Http1.parse a.httparse) a.streams r
    by_port false = streams-http_forward a.connect (Http1.parse a.httparse) a.streams r
