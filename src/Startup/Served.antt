-- ===== src/Startup/Served.antt =====
-- The start of the proxy and its connections together.
use condukt.Prelude.{
  ℕ, ◌≡◌, sym, ap, ◌∙◌, subst, inl, inr, List, [], ◌∷◌, ◌++◌, Option, some, Str, All, Any, ok,
}
use condukt.Policy.{Policy}
use condukt.Event.{SocketAddr, Inbound}
use condukt.Tls
use condukt.Tls.Minting.{Crates, Issuer, ServerConfig, load}
use condukt.Tls.Minting.Leaf.{Certifying, IsLeaf, MintedBy}
use condukt.Conn.Handle.{Answers, Effect, emits, asks, shuts_down, transfers}
use condukt.Conn.Handle.Contact.{IsTransfer}
use condukt.Conn.Handle.Accepting.{IsAccepting}
use condukt.Conn.Stages.{identified, host_of}
use condukt.Proxy.{Proxy, Run}
use condukt.Proxy.Safety.{IsAllowed, Run-IsAllowed}
use condukt.Proxy.Presents.{Run-presents}
use condukt.Startup.{Args, Host, Handled, run_async}
use condukt.Startup.Order.{Started, run_async-Started}

All-member :
    {A : Type 0} (P : A → Type 0) (before : List A) (x : A) (after : List A)
    → All P (before ++ x ∷ after)
    → P x
All-member P [] x after h = h.0
All-member P (y ∷ before) x after h = All-member P before x after h.1

-- one that accepts a handshake is one that goes on to its upstream
IsTransfer-of_accepting : (es : List Effect) → Any IsAccepting es → Any IsTransfer es
IsTransfer-of_accepting [] x = absurd x
IsTransfer-of_accepting (transfers calls t ∷ es) (inl x) = inl tt
IsTransfer-of_accepting (emits e ∷ es) (inl x) = absurd x
IsTransfer-of_accepting (asks q timeout ∷ es) (inl x) = absurd x
IsTransfer-of_accepting (shuts_down ∷ es) (inl x) = absurd x
IsTransfer-of_accepting (e ∷ es) (inr x) = inr (IsTransfer-of_accepting es x)

module _ {C K O W D I L S : Type 0} (b : Crates C K O W D I) (law : Certifying b) (host : Host L S)
    (args : Args) where
  -- The policy of the options' file lets the name through, and the certificate presented is one for
  -- it that the CA of the options' files has signed.
  pub record Authorised (lines : List (Option Inbound)) (a : Answers)
      (phase : Tls.Phase (ℕ × ServerConfig I)) (name : Str) : Type 0 where
    pub policy_json : Str
    pub policy : Policy
    pub ca : Issuer C K
    pub arc : ℕ
    pub cfg : ServerConfig I
    pub reads : host.read_to_string args.policy_file ≡ ok policy_json
    pub parses : host.from_str policy_json ≡ ok policy
    pub loads : load b host.read_to_string args.ca_cert_path args.ca_key_path ≡ ok ca
    pub allowed : IsAllowed policy lines a name
    pub returned : phase ≡ Tls.Phase.returned (arc, cfg)
    pub leaf : IsLeaf b law ca name cfg

  module _ (before : List (Handled (Issuer C K) L S)) (h : Handled (Issuer C K) L S)
      (after : List (Handled (Issuer C K) L S)) {a : ℕ → Answers} {lines : List (Option Inbound)}
      {s : Proxy (ℕ × ServerConfig I)} (t : ℕ) {dst : SocketAddr} {name : Str} where
    -- For a proxy that has started and a run with the policy and the CA that it hands to one of its
    -- connections, whatever order the handlers, their calls, the reader and the writer run in: an
    -- identified connection comes to the client's handshake only for a host that the policy of the
    -- policy file allows, or leaves to the decider who has allowed this very connection, and with a
    -- certificate for this host that the CA of the CA files has signed.
    pub run_async-Authorised :
        run_async b host args ≡ ok (before ++ h ∷ after)
        → Run h.policy a (MintedBy b law h.ca) lines s
        → identified (a t) ≡ some (dst, name)
        → Any IsAccepting (s.trace t)
        → Authorised lines (a t) (s.ca.phase t) name
    unfolding identified
    run_async-Authorised e r i x =
        let served = subst (Started b host args) e (run_async-Started b host args) in
        let (same_policy, same_control, same_ca, same_session) =
          All-member _ before h after served.shares in
        let (dst', name', i', allowed) =
          Run-IsAllowed t r (IsTransfer-of_accepting (s.trace t) x) in
        let (arc, cfg, returned, leaf) = Run-presents b law h.ca t r i x in
        record {
          policy_json = served.policy_json;
          policy = served.policy;
          ca = served.ca;
          arc = arc;
          cfg = cfg;
          reads = served.reads;
          parses = served.parses;
          loads = served.loads;
          allowed =
              subst (λ p. IsAllowed p lines (a t) name) same_policy
                (subst (λ n. IsAllowed h.policy lines (a t) n) (sym (ap host_of i') ∙ ap host_of i)
                  allowed);
          returned = returned;
          leaf = subst (λ ca. IsLeaf b law ca name cfg) same_ca leaf;
        }
