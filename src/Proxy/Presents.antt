-- ===== src/Proxy/Presents.antt =====
-- Which certificate the connections of a run present.
use condukt.Prelude.{
  ℕ, ◌≡◌, ap, ◌∙◌, subst, inl, inr, List, Option, none, some, Str, Any, Any-append, arith,
}
use condukt.Policy.{Policy}
use condukt.Event.{SocketAddr, Inbound}
use condukt.Tls
use condukt.Tls.Calls.{host-Run}
use condukt.Tls.Minting.{Crates, Issuer, ServerConfig}
use condukt.Tls.Minting.Leaf.{Certifying, IsLeaf, MintedBy, Run-IsLeaf}
use condukt.Conn.Handle.{Answers}
use condukt.Conn.Handle.Accepting.{IsAccepting, handle_host-Accepts}
use condukt.Conn.Stages.{identified, host_of}
use condukt.Proxy.{Proxy, Run}
use condukt.Proxy.Traces.{with_answers, Ends}
use condukt.Proxy.Runs.{Run-ca}
use condukt.Proxy.Identified.{handled, handle_by}
use condukt.Proxy.Handling.{Run-Handles}

module _ {C K O W D I : Type 0} (b : Crates C K O W D I) (law : Certifying b) (issuer : Issuer C K)
    {p : Policy} {a : ℕ → Answers} {lines : List (Option Inbound)} {s : Proxy (ℕ × ServerConfig I)}
    (t : ℕ) {dst : SocketAddr} {host : Str} (r : Run p a (MintedBy b law issuer) lines s)
    (i : identified (a t) ≡ some (dst, host)) where
  returned-IsLeaf :
      Ends (s.ca.phase t) none
      → (arc : ℕ) × (cfg : ServerConfig I) × (s.ca.phase t ≡ Tls.Phase.returned (arc, cfg))
        × IsLeaf b law issuer host cfg
  unfolding identified
  returned-IsLeaf ((arc, cfg), returned) =
      let run = Run-ca (MintedBy b law issuer) p a r in
      (
        arc,
        cfg,
        returned,
        subst (λ h. IsLeaf b law issuer h cfg)
            (ap (λ (f : ℕ → Str). f t) (host-Run run) ∙ ap host_of i)
            (Run-IsLeaf b law issuer t arc cfg run returned),
      )

  -- Whatever order the handlers, their calls, the reader and the writer run in: an identified
  -- connection that has come to its client's handshake has done so with the configuration that its
  -- own call of `server_config_for` returned, fresh or shared, and this presents a single certificate,
  -- which names the identified host, the one that the policy judges, and no other, is no CA, is signed
  -- by the session's CA and belongs to the key held.
  pub Run-presents :
      Any IsAccepting (s.trace t)
      → (arc : ℕ) × (cfg : ServerConfig I) × (s.ca.phase t ≡ Tls.Phase.returned (arc, cfg))
        × IsLeaf b law issuer host cfg
  unfolding identified
  Run-presents x =
      let h = Run-Handles t r in
      let connection = with_answers (a t) h.decider h.config in
      let (allowed, port, configured) = handle_host-Accepts connection p dst host (
        subst (Any IsAccepting) (h.whole ∙ (handle_by connection p ∙ ap (handled connection p) i))
          (Any-append IsAccepting (s.trace t) h.rest x)) in
      elim (h.configured dst host i) [
        | inl ends ↦ returned-IsLeaf (subst (Ends (s.ca.phase t)) configured (ends allowed port))
        | inr (unknown, unserved) ↦ absurd (ground (arith, unknown, configured))
      ]
