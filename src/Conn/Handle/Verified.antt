-- ===== src/Conn/Handle/Verified.antt =====
-- Whose name stands in the calls of a connection, and what is carried before they have succeeded.
use condukt.Prelude.{
  ℕ, Bool, true, false, ◌≡◌, refl, sym, subst, ◌⊎◌, inl, inr, List, [], ◌∷◌, Option, none, some,
  Str, codes, ◌==◌, ==_iff, if◌then◌else◌, All, All-append, err, ok, ◌&&◌, arith,
}
use condukt.Prelude.Bytes.{Bytes}
use condukt.Policy
use condukt.Policy.{Policy, MatchedRule, evaluate}
use condukt.Event.{SocketAddr, https_port, Request, new_request}
use condukt.Control.{Query}
use condukt.Http1
use condukt.Http1.{Head}
use condukt.Conn.Outcome.{Outcome}
use condukt.Conn.Transfer.{Streams, Transfer}
use condukt.Conn.Https.{
  TlsAnswers, ◌>>◌, check, check_accept, error_text, is_h2, https_setup, https_rest, https_mitm,
  http_forward,
}
use condukt.Conn.Https.Calls.{Call, onward, https_calls, forward_calls}
use condukt.Conn.Handle.{
  Answers, Effect, emits, asks, shuts_down, transfers, denial_reason, asking, serve, calls_of,
  settle, query_of, request_of, handle_host,
}

-- a call to the destination, or for the host
abbrev pub IsDirected : SocketAddr → Str → Call → Type 0
IsDirected dst host (Call.server_config_for h) = h ≡ host
IsDirected dst host Call.accept = Unit
IsDirected dst host (Call.try_from h) = h ≡ host
IsDirected dst host (Call.connect d) = d ≡ dst
IsDirected dst host (Call.connect_tls h) = h ≡ host

-- all calls of `https_mitm`
abbrev pub all_calls : SocketAddr → Str → List Call
all_calls dst host =
    Call.server_config_for host
    ∷ Call.accept
    ∷ Call.try_from host
    ∷ Call.connect dst
    ∷ Call.connect_tls host
    ∷ []

-- no byte and no stream
abbrev pub IsSilent : Transfer → Type 0
IsSilent t = (t.to_upstream ≡ []) × (t.to_client ≡ []) × (t.streams ≡ [])

-- Nothing is carried, or every call was made and the last one, which verifies the upstream's
-- certificate for its name, succeeded.
abbrev pub IsVerified : SocketAddr → Str → Option Str → List Call → Transfer → Type 0
IsVerified dst host upstream_tls calls t =
    IsSilent t ⊎ ((calls ≡ all_calls dst host) × (upstream_tls ≡ none))

-- from what the handshake with the upstream ends with
abbrev pub IsSecured : Option Str → SocketAddr → Str → Effect → Type 0
IsSecured upstream_tls dst host (emits e) = Unit
IsSecured upstream_tls dst host (asks q timeout) = Unit
IsSecured upstream_tls dst host shuts_down = Unit
IsSecured upstream_tls dst host (transfers calls t) =
    All (IsDirected dst host) calls
    × (dst.port ≡ https_port → IsVerified dst host upstream_tls calls t)

module _ (dst : SocketAddr) (host : Str) where
  -- the set-up fails, or every call has succeeded
  setup_by :
      (h2 : Bool) (sc ac sn co ut : Option Str)
      → ((e : Str) × ((check (codes "server_config") sc
              >> (check_accept ac
                  >> (check (codes "sni") sn
                      >> (check (codes "upstream_unreachable") co
                          >> (check (codes "upstream_tls") ut >> ok h2)))))
            ≡ err e))
        ⊎ ((Call.server_config_for host
                ∷ onward sc (
                    Call.accept
                    ∷ onward ac (
                        Call.try_from host
                        ∷ onward sn (Call.connect dst ∷ onward co (Call.connect_tls host ∷ []))))
              ≡ all_calls dst host)
            × (ut ≡ none))
  setup_by h2 (some e) ac sn co ut = inl (_, refl)
  setup_by h2 none (some e) sn co ut = inl (_, refl)
  setup_by h2 none none (some e) co ut = inl (_, refl)
  setup_by h2 none none none (some e) ut = inl (_, refl)
  setup_by h2 none none none none (some e) = inl (_, refl)
  setup_by h2 none none none none none = inr (refl, refl)

  https_mitm-IsVerified :
      (a : TlsAnswers) (parse : Bytes → Head) (s : Streams) (r : Request)
      → IsVerified dst host a.upstream_tls (https_calls host dst a) (https_mitm a parse s r)
  unfolding https_mitm https_setup https_calls
  https_mitm-IsVerified a parse s r =
      elim (setup_by (is_h2 a.client_alpn && is_h2 a.upstream_alpn) (error_text a.server_config)
        a.accept a.server_name a.connect a.upstream_tls) [
          | inl (e, failed) ↦ inl (
              subst (λ (o : Outcome Bool). IsSilent (https_rest o a parse s r)) (sym failed)
                (refl, refl, refl))
          | inr made ↦ inr made
        ]

  All-onward :
      (o : Option Str) (cs : List Call)
      → All (IsDirected dst host) cs
      → All (IsDirected dst host) (onward o cs)
  All-onward none cs h = h
  All-onward (some e) cs h = tt

  https_calls-IsDirected : (a : TlsAnswers) → All (IsDirected dst host) (https_calls host dst a)
  unfolding https_calls
  https_calls-IsDirected a = (
    refl,
    All-onward (error_text a.server_config) _ (
      tt,
      All-onward a.accept _
          (refl, All-onward a.server_name _ (refl, All-onward a.connect _ (refl, tt))),
    ),
  )

  serve-IsSecured :
      (a : Answers) (r : Request)
      → r.host ≡ host
      → IsSecured a.https.upstream_tls dst host (transfers (calls_of a dst r) (serve a dst.port r))
  serve-IsSecured a r named =
      by_port (dst.port == https_port) (λ e. (==_iff dst.port https_port).1 e)
    where
      by_port :
          (own : Bool)
          → (dst.port ≡ https_port → own ≡ true)
          → All
              (IsDirected dst host)
              (if own then https_calls r.host dst a.https else forward_calls dst)
            × (dst.port ≡ https_port
                → IsVerified dst host a.https.upstream_tls
                    (if own then https_calls r.host dst a.https else forward_calls dst)
                    (if own
                      then https_mitm a.https (Http1.parse a.httparse) a.streams r
                      else http_forward a.connect (Http1.parse a.httparse) a.streams r))
      by_port true e = (
        subst (λ h. All (IsDirected dst host) (https_calls h dst a.https)) (sym named)
            (https_calls-IsDirected a.https),
        λ p.
            subst
              (λ h.
                IsVerified dst host a.https.upstream_tls (https_calls h dst a.https)
                  (https_mitm a.https (Http1.parse a.httparse) a.streams r))
              (sym named) (https_mitm-IsVerified a.https (Http1.parse a.httparse) a.streams r),
      )
      by_port false e = ((refl, tt), λ p. absurd (ground (arith, e p)))

  settle-IsSecured :
      (a : Answers) (r : Request) (rule : Option MatchedRule) (denial : Option Str)
      → r.host ≡ host
      → All (IsSecured a.https.upstream_tls dst host) (settle a dst r rule denial)
  settle-IsSecured a r rule (some reason) named = (tt, (tt, tt))
  settle-IsSecured a r rule none named = (tt, (serve-IsSecured a r named, (tt, tt)))

  asking-IsSecured :
      (a : Answers) (d : Policy.Decision) (q : Query) (timeout : ℕ)
      → All (IsSecured a.https.upstream_tls dst host) (asking d q timeout)
  asking-IsSecured a Policy.Decision.allow q timeout = tt
  asking-IsSecured a (Policy.Decision.deny reason) q timeout = tt
  asking-IsSecured a Policy.Decision.decide q timeout = (tt, tt)

  pub handle_host-IsSecured :
      (a : Answers) (p : Policy)
      → All (IsSecured a.https.upstream_tls dst host) (handle_host a p dst host)
  unfolding handle_host new_request
  handle_host-IsSecured a p =
      let d = (evaluate p host).0 in
      let r = request_of a dst host in
      (
        tt,
        All-append (IsSecured a.https.upstream_tls dst host)
            (asking d (query_of r) p.decide_timeout_ms)
            (settle a dst r (evaluate p host).1 (denial_reason d a.decider))
            (asking-IsSecured a d (query_of r) p.decide_timeout_ms)
            (settle-IsSecured a r (evaluate p host).1 (denial_reason d a.decider) refl),
      )
