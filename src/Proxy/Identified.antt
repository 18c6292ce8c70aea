-- ===== src/Proxy/Identified.antt =====
-- A connection whose destination and host can be told, once for all its stages.
use condukt.Prelude.{
  ◌≡◌, refl, sym, ap, ◌∙◌, subst, List, [], ◌++◌, Option, none, some, Str, Result, ok, err,
}
use condukt.Prelude.Bytes.{Bytes}
use condukt.Policy.{Policy}
use condukt.Event.{SocketAddr}
use condukt.Control
use condukt.Control.{Phase, Query}
use condukt.Tls
use condukt.Tls.Minting.{TlsError}
use condukt.OrigDst.{original_dst}
use condukt.Conn.Handle.{Answers, Effect, handle_host, handle_peeked, handle_dst, handle}
use condukt.Conn.Stages.{at_peek, at_dst, identified, host_of}
use condukt.Proxy.Traces.{with_answers, IsAnswer, IsConfigured}

-- the handler of a connection whose host can be told, or not
abbrev pub handled : Answers → Policy → Option (SocketAddr × Str) → List Effect
handled a p none = []
handled a p (some (dst, host)) = handle_host a p dst host

module _ (a : Answers) (p : Policy) where
  handled_peek :
      (dst : SocketAddr) (o : Option Bytes)
      → handle_peeked a p dst o ≡ handled a p (at_peek a dst o)
  handled_peek dst none = refl
  handled_peek dst (some bytes) = refl

  handled_dst : (r : Result Str SocketAddr) → handle_dst a p r ≡ handled a p (at_dst a r)
  handled_dst (err e) = refl
  handled_dst (ok dst) = handled_peek dst a.peek

  pub handle_by : handle a p ≡ handled a p (identified a)
  unfolding handle identified
  handle_by = handled_dst (original_dst a.little_endian a.getsockopt)

abbrev destination_of : Option (SocketAddr × Str) → SocketAddr → SocketAddr
destination_of none default = default
destination_of (some (dst, host)) default = dst

module _ (p : Policy) (a : Answers) where
  -- of an identified connection, for these ends of its calls
  pub whole_of :
      (tr : List Effect) {dst : SocketAddr} {host : Str} (v : Option Control.Decision)
      (c : Option TlsError) (rest : List Effect)
      → identified a ≡ some (dst, host)
      → tr ++ rest ≡ handle_host (with_answers a v c) p dst host
      → tr ++ rest ≡ handle (with_answers a v c) p
  unfolding identified
  whole_of tr v c rest i e =
      e ∙ sym (handle_by (with_answers a v c) p ∙ ap (handled (with_answers a v c) p) i)

  -- a connection is identified once
  module _ {dst dst' : SocketAddr} {host host' : Str} (v : Option Control.Decision)
      (i : identified a ≡ some (dst, host)) (i' : identified a ≡ some (dst', host')) where
    same_host : host ≡ host'
    same_host = sym (ap host_of i) ∙ ap host_of i'

    same_destination : dst ≡ dst'
    same_destination = sym (ap (λ o. destination_of o dst) i) ∙ ap (λ o. destination_of o dst) i'

    pub IsAnswer-same_host : {phase : Phase} → IsAnswer p host phase v → IsAnswer p host' phase v
    IsAnswer-same_host {phase} answer = subst (λ h. IsAnswer p h phase v) same_host answer

    pub IsConfigured-same_host :
        {S : Type 0} (own : Tls.Phase S) (c : Option TlsError)
        → IsConfigured p dst host v own c
        → IsConfigured p dst' host' v own c
    IsConfigured-same_host own c conf =
        subst (λ d. IsConfigured p d host' v own c) same_destination
          (subst (λ h. IsConfigured p dst h v own c) same_host conf)
