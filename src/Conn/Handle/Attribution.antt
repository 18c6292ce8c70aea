-- ===== src/Conn/Handle/Attribution.antt =====
-- What the events of one connection carry.
use condukt.Prelude.{
  ℕ, ◌≡◌, ◌≢◌, refl, sym, subst, ◌∙◌, Bool, true, false, [], Option, none, some, Str, ◌==◌, All,
  All-append, Bool-cases, inl, inr, ok, err,
}
use condukt.Prelude.Bytes.{Bytes}
use condukt.Policy
use condukt.Policy.{Policy, MatchedRule, evaluate}
use condukt.Event.{
  SocketAddr, https_port, Request, Kind, request_opened, request_closed, request_allowed,
  request_denied, request_failed, Event,
}
use condukt.Http1
use condukt.Http1.{Head, RequestHead}
use condukt.OrigDst.{original_dst}
use condukt.Conn.Host.{identify_host}
use condukt.H2.Connection.Events.{IsStreamEvent, ByStream}
use condukt.Conn.Handle.Interleaved.{streams-serve}
use condukt.Conn.Outcome.{Outcome}
use condukt.Conn.Transfer.{
  Streams, Transfer, HeadRead, read_head, with_head, finish, forward_head, exchange, after_head,
}
use condukt.Conn.Https.{TlsAnswers, https_setup, https_rest, https_mitm, http_rest, http_forward}
use condukt.Conn.Handle.{
  Answers, Effect, emits, asks, shuts_down, transfers, denial_reason, asking, attach, last_event,
  serve, settle, query_of, request_of, handle_host, handle,
}

-- The reason and the matched rule that an event of each kind carries.
abbrev pub Carries : Option MatchedRule → Kind → Option Str → Option MatchedRule → Type 0
Carries rule request_opened reason matched = (reason ≡ none) × (matched ≡ none)
Carries rule request_closed reason matched = (reason ≡ none) × (matched ≡ none)
Carries rule request_allowed reason matched = (reason ≡ none) × (matched ≡ rule)
Carries rule request_denied reason matched = (reason ≢ none) × (matched ≡ rule)
Carries rule request_failed reason matched = (reason ≢ none) × (matched ≡ none)

-- what identifies a request: its identifier, session, host and port
abbrev pub identity : Request → Str × Option Str × Str × ℕ
identity r = (r.id, r.session_id, r.host, r.port)

-- An emitted event belongs to this request and carries what its kind carries.
abbrev pub IsAttributed : Request → Option MatchedRule → Effect → Type 0
IsAttributed r rule (emits e) =
    (identity e.request ≡ identity r) × Carries rule e.kind e.reason e.matched_rule
IsAttributed r rule (asks q timeout) = q ≡ query_of r
IsAttributed r rule shuts_down = Unit
IsAttributed r rule (transfers calls t) =
    (identity t.request ≡ identity r) × All (ByStream (IsStreamEvent r)) t.streams

-- The transfer keeps what identifies the request.
identity-with_head : (h : Option RequestHead) (r : Request) → identity (with_head h r) ≡ identity r
unfolding with_head
identity-with_head none r = refl
identity-with_head (some h) r = refl

identity-forward_head :
    (w : Option Str) (h : HeadRead) (s : Streams) (r : Request)
    → identity (forward_head w h s r).request ≡ identity r
unfolding finish
identity-forward_head (some e) h s r = refl
identity-forward_head none h s r = refl

identity-after_head :
    (s : Streams) (r : Request) (o : Outcome HeadRead)
    → identity (after_head s r o).request ≡ identity r
identity-after_head s r (err e) = refl
identity-after_head s r (ok h) =
    identity-forward_head s.head_write h s (with_head h.head r) ∙ identity-with_head h.head r

identity-exchange :
    (parse : Bytes → Head) (s : Streams) (r : Request)
    → identity (exchange parse s r).request ≡ identity r
unfolding exchange
identity-exchange parse s r = identity-after_head s r (read_head parse [] s.client_reads)

identity-https_rest :
    (o : Outcome Bool) (a : TlsAnswers) (parse : Bytes → Head) (s : Streams) (r : Request)
    → identity (https_rest o a parse s r).request ≡ identity r
identity-https_rest (err e) a parse s r = refl
identity-https_rest (ok true) a parse s r = refl
identity-https_rest (ok false) a parse s r = identity-exchange parse s r

identity-https_mitm :
    (a : TlsAnswers) (parse : Bytes → Head) (s : Streams) (r : Request)
    → identity (https_mitm a parse s r).request ≡ identity r
unfolding https_mitm
identity-https_mitm a parse s r = identity-https_rest (https_setup a) a parse s r

identity-http_rest :
    (connect : Option Str) (parse : Bytes → Head) (s : Streams) (r : Request)
    → identity (http_rest connect parse s r).request ≡ identity r
identity-http_rest (some e) parse s r = refl
identity-http_rest none parse s r = identity-exchange parse s r

identity-http_forward :
    (connect : Option Str) (parse : Bytes → Head) (s : Streams) (r : Request)
    → identity (http_forward connect parse s r).request ≡ identity r
unfolding http_forward
identity-http_forward connect parse s r = identity-http_rest connect parse s r

identity-serve :
    (a : Answers) (port : ℕ) (r : Request) → identity (serve a port r).request ≡ identity r
identity-serve a port r = elim (Bool-cases (port == https_port)) [
  | inl e ↦ rw e (identity-https_mitm a.https (Http1.parse a.httparse) a.streams r)
  | inr e ↦ rw e (identity-http_forward a.connect (Http1.parse a.httparse) a.streams r)
]

module _ (r : Request) (rule : Option MatchedRule) where
  IsAttributed-attach :
      (e : Event)
      → (identity e.request ≡ identity r) × Carries rule e.kind e.reason rule
      → e.matched_rule ≡ none
      → IsAttributed r rule (emits (attach rule e))
  IsAttributed-attach e h n = at_rule rule h
    where
      at_rule :
          (m : Option MatchedRule)
          → (identity e.request ≡ identity r) × Carries m e.kind e.reason m
          → IsAttributed r m (emits (attach m e))
      at_rule none h = (h.0, subst (λ m. Carries none e.kind e.reason m) (sym n) h.1)
      at_rule (some v) h = h

  IsAttributed-last :
      (now : ℕ) (t : Transfer)
      → identity t.request ≡ identity r
      → IsAttributed r rule (emits (last_event now t))
  IsAttributed-last now t e = last t.outcome refl
    where
      last :
          (o : Outcome (Unit {0})) → t.outcome ≡ o → IsAttributed r rule (emits (last_event now t))
      last (ok _) q = rw q (e, (refl, refl))
      last (err x) q = rw q (e, ((λ c. cc), refl))

  IsAttributed-asking :
      (d : Policy.Decision) (timeout : ℕ)
      → All (IsAttributed r rule) (asking d (query_of r) timeout)
  IsAttributed-asking Policy.Decision.decide timeout = (refl, tt)
  IsAttributed-asking Policy.Decision.allow timeout = tt
  IsAttributed-asking (Policy.Decision.deny reason) timeout = tt

  IsAttributed-settle :
      (a : Answers) (dst : SocketAddr) (denial : Option Str)
      → All (IsAttributed r rule) (settle a dst r rule denial)
  IsAttributed-settle a dst (some reason) =
      (IsAttributed-attach _ (refl, ((λ c. cc), refl)) refl, (tt, tt))
  IsAttributed-settle a dst none =
      let kept = identity-serve a dst.port r in
      (
        IsAttributed-attach _ (refl, (refl, refl)) refl,
        (
          (kept, streams-serve a dst.port r),
          (IsAttributed-last (a.clock 3) (serve a dst.port r) kept, tt),
        ),
      )

IsAttributed-handle_host :
    (a : Answers) (p : Policy) (dst : SocketAddr) (host : Str)
    → All (IsAttributed (request_of a dst host) (evaluate p host).1) (handle_host a p dst host)
unfolding handle_host
IsAttributed-handle_host a p dst host =
    let d = (evaluate p host).0 in
    let rule = (evaluate p host).1 in
    let r = request_of a dst host in
    let denial = denial_reason d a.decider in
    (
      (refl, (refl, refl)),
      All-append (IsAttributed r rule) (asking d (query_of r) p.decide_timeout_ms)
          (settle a dst r rule denial) (IsAttributed-asking r rule d p.decide_timeout_ms)
          (IsAttributed-settle r rule a dst denial),
    )

-- Each emitted event carries the connection's identifier, session, identified host and port; an
-- allowed and a denied event carry the rule that `evaluate` matched for that host, a denied and a
-- failed event a reason, and nothing else is carried. The decision request is the connection's own,
-- the transfer keeps the identity, and each event of its HTTP/2 streams is `request_opened` or
-- `request_closed` with the connection's session, host and port and without a rule.
pub handle-IsAttributed :
    (a : Answers) (p : Policy) (dst : SocketAddr) (bytes : Bytes)
    → original_dst a.little_endian a.getsockopt ≡ ok dst
    → a.peek ≡ some bytes
    → All
        (IsAttributed
          (request_of a dst (identify_host a.tls bytes dst.port dst.ip))
          (evaluate p (identify_host a.tls bytes dst.port dst.ip)).1)
        (handle a p)
unfolding handle
handle-IsAttributed a p dst bytes e f =
    rw (e, f) (IsAttributed-handle_host a p dst (identify_host a.tls bytes dst.port dst.ip))
