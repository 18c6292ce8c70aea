-- ===== src/Startup/Order.antt =====
-- When the proxy serves.
use condukt.Prelude.{
  ◌≡◌, refl, ap, List, [], ◌∷◌, ◌++◌, Str, codes, All, Result, ok, err, ◌>>=◌, map_err,
}
use condukt.Policy.{Policy}
use condukt.Conn.Outcome.{Outcome}
use condukt.Tls.Minting.{Crates, Issuer, TlsError, to_string, load}
use condukt.Startup.{Args, Host, Handled, policy_error, accept_loop, run_async}

-- the connections that were accepted, in order
abbrev pub accepted : {S : Type 0} → List (Outcome S) → List S
accepted [] = []
accepted (ok s ∷ rest) = s ∷ accepted rest
accepted (err e ∷ rest) = accepted rest

abbrev pub clients : {C L S : Type 0} → List (Handled C L S) → List S
clients [] = []
clients (h ∷ rest) = h.client ∷ clients rest

module _ {C K O W D I L S : Type 0} (b : Crates C K O W D I) (host : Host L S) (args : Args) where
  -- Everything that the proxy serves with is what its options name.
  pub record Serves (handled : List (Handled (Issuer C K) L S)) : Type 0 where
    pub policy_json : Str
    pub policy : Policy
    pub ca : Issuer C K
    pub control : L
    pub listener : L
    pub reads : host.read_to_string args.policy_file ≡ ok policy_json
    pub parses : host.from_str policy_json ≡ ok policy
    pub loads : load b host.read_to_string args.ca_cert_path args.ca_key_path ≡ ok ca
    pub starts : host.start args.control_listen ≡ ok control
    pub binds : host.bind args.listen ≡ ok listener
    pub all_accepted : clients handled ≡ accepted (host.accepts listener)
    pub shares :
        All
          (λ h.
            (h.policy ≡ policy)
            × (h.control ≡ control)
            × (h.ca ≡ ca)
            × (h.session_id ≡ args.session_id))
          handled

  -- The first step that fails, all before it having succeeded, and the error it leaves.
  pub data Fails : Str → Type 0 where
    reading :
        {e : Str}
        → host.read_to_string args.policy_file ≡ err e
        → Fails (codes "reading policy " ++ (args.policy_file ++ (codes ": " ++ e)))
    parsing :
        {e json : Str}
        → host.read_to_string args.policy_file ≡ ok json
        → host.from_str json ≡ err e
        → Fails (codes "parsing policy " ++ (args.policy_file ++ (codes ": " ++ e)))
    loading :
        {e : TlsError} {json : Str} {policy : Policy}
        → host.read_to_string args.policy_file ≡ ok json
        → host.from_str json ≡ ok policy
        → load b host.read_to_string args.ca_cert_path args.ca_key_path ≡ err e
        → Fails (to_string e)
    starting :
        {e json : Str} {policy : Policy} {ca : Issuer C K}
        → host.read_to_string args.policy_file ≡ ok json
        → host.from_str json ≡ ok policy
        → load b host.read_to_string args.ca_cert_path args.ca_key_path ≡ ok ca
        → host.start args.control_listen ≡ err e
        → Fails e
    binding :
        {e json : Str} {policy : Policy} {ca : Issuer C K} {control : L}
        → host.read_to_string args.policy_file ≡ ok json
        → host.from_str json ≡ ok policy
        → load b host.read_to_string args.ca_cert_path args.ca_key_path ≡ ok ca
        → host.start args.control_listen ≡ ok control
        → host.bind args.listen ≡ err e
        → Fails e

  abbrev pub Started : Outcome (List (Handled (Issuer C K) L S)) → Type 0
  Started (ok handled) = Serves handled
  Started (err e) = Fails e

  clients-accept_loop :
      (policy : Policy) (control : L) (ca : Issuer C K) (os : List (Outcome S))
      → clients (accept_loop policy control ca args.session_id os) ≡ accepted os
  clients-accept_loop policy control ca [] = refl
  clients-accept_loop policy control ca (ok s ∷ rest) =
      ap (λ l. s ∷ l) (clients-accept_loop policy control ca rest)
  clients-accept_loop policy control ca (err e ∷ rest) = clients-accept_loop policy control ca rest

  shares-accept_loop :
      (policy : Policy) (control : L) (ca : Issuer C K) (os : List (Outcome S))
      → All
          (λ h.
            (h.policy ≡ policy)
            × (h.control ≡ control)
            × (h.ca ≡ ca)
            × (h.session_id ≡ args.session_id))
          (accept_loop policy control ca args.session_id os)
  shares-accept_loop policy control ca [] = tt
  shares-accept_loop policy control ca (ok s ∷ rest) =
      ((refl, refl, refl, refl), shares-accept_loop policy control ca rest)
  shares-accept_loop policy control ca (err e ∷ rest) = shares-accept_loop policy control ca rest

  -- how the start goes on, from its last step to its first
  abbrev on_listener : Policy → Issuer C K → L → L → Outcome (List (Handled (Issuer C K) L S))
  on_listener policy ca control listener =
      ok (accept_loop policy control ca args.session_id (host.accepts listener))

  abbrev on_control : Policy → Issuer C K → L → Outcome (List (Handled (Issuer C K) L S))
  on_control policy ca control = host.bind args.listen >>= on_listener policy ca control

  abbrev on_ca : Policy → Issuer C K → Outcome (List (Handled (Issuer C K) L S))
  on_ca policy ca = host.start args.control_listen >>= on_control policy ca

  abbrev on_policy : Policy → Outcome (List (Handled (Issuer C K) L S))
  on_policy policy =
      map_err to_string (load b host.read_to_string args.ca_cert_path args.ca_key_path)
      >>= on_ca policy

  abbrev on_json : Str → Outcome (List (Handled (Issuer C K) L S))
  on_json json = policy_error (codes "parsing") args.policy_file (host.from_str json) >>= on_policy

  module _ {json : Str} (reads : host.read_to_string args.policy_file ≡ ok json) where
    module _ {policy : Policy} (parses : host.from_str json ≡ ok policy) where
      module _ {ca : Issuer C K}
          (loads : load b host.read_to_string args.ca_cert_path args.ca_key_path ≡ ok ca) where
        from_listener :
            {control : L}
            → host.start args.control_listen ≡ ok control
            → (o : Outcome L) → host.bind args.listen ≡ o
            → Started (o >>= on_listener policy ca control)
        from_listener starts (err e) binds = binding reads parses loads starts binds
        from_listener {control} starts (ok listener) bound = record {
          policy_json = json;
          policy = policy;
          ca = ca;
          control = control;
          listener = listener;
          reads = reads;
          parses = parses;
          loads = loads;
          starts = starts;
          binds = bound;
          all_accepted = clients-accept_loop policy control ca (host.accepts listener);
          shares = shares-accept_loop policy control ca (host.accepts listener);
        }

        from_control :
            (o : Outcome L)
            → host.start args.control_listen ≡ o
            → Started (o >>= on_control policy ca)
        from_control (err e) s = starting reads parses loads s
        from_control (ok control) s = from_listener s (host.bind args.listen) refl

      from_ca :
          (o : Result TlsError (Issuer C K))
          → load b host.read_to_string args.ca_cert_path args.ca_key_path ≡ o
          → Started (map_err to_string o >>= on_ca policy)
      from_ca (err e) l = loading reads parses l
      from_ca (ok ca) l = from_control l (host.start args.control_listen) refl

    from_policy :
        (o : Outcome Policy)
        → host.from_str json ≡ o
        → Started (policy_error (codes "parsing") args.policy_file o >>= on_policy)
    from_policy (err e) p = parsing reads p
    from_policy (ok policy) p =
        from_ca p (load b host.read_to_string args.ca_cert_path args.ca_key_path) refl

  from_json :
      (o : Outcome Str)
      → host.read_to_string args.policy_file ≡ o
      → Started (policy_error (codes "reading") args.policy_file o >>= on_json)
  from_json (err e) r = reading r
  from_json (ok json) r = from_policy r (host.from_str json) refl

  -- The proxy either fails with the error of the first step that failed, of reading the policy, parsing
  -- it, loading the CA, opening the control channel and opening its port, in this order; or all of
  -- them succeeded, and every connection that is accepted, and no other, is handled in order with that
  -- policy, channel and CA and the session's identifier.
  pub run_async-Started : Started (run_async b host args)
  unfolding run_async
  run_async-Started = from_json (host.read_to_string args.policy_file) refl
