-- ===== src/Tls/Minting/Leaf.antt =====
-- What a minted configuration presents.
use condukt.Prelude.{
  ℕ, ◌≡◌, sym, ok_injective, ◌∙◌, subst, ap, List, [], ◌∷◌, Str, codes, ok, map_err, bind_ok,
  map_err_ok,
}
use condukt.Prelude.Bytes.{Bytes}
use condukt.Tls.{Phase, CaContext}
use condukt.Tls.Cache.{Run, Run-Mints}
use condukt.Tls.Minting.{
  DnType, common_name, IsCa, no_ca, SanType, dns_name, CertificateParams, Crates, Issuer,
  ServerConfig, rcgen, rustls, leaf_params, build_leaf, mint,
}

-- What can be read from an encoded certificate and from a configuration, and what the documents of
-- the crates promise of it: the conversion of a name keeps its text, a signed certificate says what
-- its parameters say, and a configuration presents the chain that it is given and holds its key.
pub record Certifying {C K O W D I : Type 0} (b : Crates C K O W D I) : Type 1 where
  pub names : D → List SanType
  pub subject : D → List (DnType × Str)
  pub authority : D → IsCa
  pub IsSignedBy : D → C → K → Type 0
  pub IsKeyOf : Bytes → D → Type 0
  pub chain : I → List D
  pub key : I → Bytes
  pub ia5_string_keeps : (s t : Str) → b.ia5_string s ≡ ok t → t ≡ s
  pub signed_by_says :
      (p : CertificateParams O) (k : K) (issuer_cert : C) (issuer_key : K) (cert : C)
      → b.signed_by p k issuer_cert issuer_key ≡ ok cert
      → (names (b.der cert) ≡ p.subject_alt_names)
        × (subject (b.der cert) ≡ p.distinguished_name)
        × (authority (b.der cert) ≡ p.is_ca)
        × IsSignedBy (b.der cert) issuer_cert issuer_key
        × IsKeyOf (b.serialize_der k) (b.der cert)
  pub with_single_cert_holds :
      (certs : List D) (k : Bytes) (inner : I)
      → b.with_single_cert certs k ≡ ok inner
      → (chain inner ≡ certs) × (key inner ≡ k)

module _ {C K O W D I : Type 0} (b : Crates C K O W D I) (law : Certifying b) where
  -- The configuration presents one certificate. It names the host and no other, in the subject and as
  -- the alternative name, is no CA, is signed by the session's CA, and belongs to the key held.
  pub record IsLeaf (issuer : Issuer C K) (host : Str) (cfg : ServerConfig I) : Type 0 where
    pub leaf : D
    pub presents : law.chain cfg.inner ≡ leaf ∷ []
    pub names : law.names leaf ≡ dns_name host ∷ []
    pub subject : law.subject leaf ≡ (common_name, host) ∷ []
    pub authority : law.authority leaf ≡ no_ca
    pub signed : law.IsSignedBy leaf issuer.cert issuer.key
    pub key : law.IsKeyOf (law.key cfg.inner) leaf
    pub alpn : cfg.alpn_protocols ≡ codes "h2" ∷ codes "http/1.1" ∷ []

  -- the parameters of a leaf, and a leaf that is built from them
  leaf_params_ok :
      (host : Str) (p : CertificateParams O)
      → leaf_params b host ≡ ok p
      → (p.subject_alt_names ≡ dns_name host ∷ [])
        × (p.distinguished_name ≡ (common_name, host) ∷ [])
        × (p.is_ca ≡ no_ca)
  unfolding leaf_params
  leaf_params_ok host p h =
      let (params, got, rest) = bind_ok (map_err rcgen (b.new (host ∷ []))) _ p h in
      let (san, is_san, made) = bind_ok (map_err rcgen (b.ia5_string host)) _ p rest in
      let same = law.ia5_string_keeps host san (map_err_ok rcgen (b.ia5_string host) san is_san) in
      let made_of = sym (ok_injective _ _ made) in
      (
        ap (λ (q : CertificateParams O). q.subject_alt_names) made_of
            ∙ ap (λ n. dns_name n ∷ []) same,
        ap (λ (q : CertificateParams O). q.distinguished_name) made_of,
        ap (λ (q : CertificateParams O). q.is_ca) made_of,
      )

  mint-IsLeaf :
      (issuer : Issuer C K) (w : W) (host : Str) (cfg : ServerConfig I)
      → mint b issuer w host ≡ ok cfg
      → IsLeaf issuer host cfg
  unfolding mint build_leaf
  mint-IsLeaf issuer w host cfg h =
      let (pair, built, rest) = bind_ok (build_leaf b issuer w host) _ cfg h in
      let (inner, served, made) =
        bind_ok (map_err rustls (b.with_single_cert (pair.0 ∷ []) pair.1)) _ cfg rest in
      let held = law.with_single_cert_holds _ _ inner (map_err_ok rustls _ inner served) in
      let (params, described, keyed) = bind_ok (leaf_params b host) _ pair built in
      let (k, generated, to_sign) = bind_ok (map_err rcgen (b.generate w)) _ pair keyed in
      let (cert, signed, encoded) =
        bind_ok (map_err rcgen (b.signed_by params k issuer.cert issuer.key)) _ pair to_sign in
      let says =
        law.signed_by_says params k issuer.cert issuer.key cert (map_err_ok rcgen _ cert signed) in
      let of_params = leaf_params_ok host params described in
      let is_pair = sym (ok_injective _ _ encoded) in
      let is_cfg = sym (ok_injective _ _ made) in
      record {
        leaf = b.der cert;
        presents =
            ap (λ (c : ServerConfig I). law.chain c.inner) is_cfg
            ∙ (held.0 ∙ ap (λ (q : D × Bytes). q.0 ∷ []) is_pair);
        names = says.0 ∙ of_params.0;
        subject = says.1 ∙ of_params.1;
        authority = says.2 ∙ of_params.2;
        signed = says.3;
        key =
            subst (λ v. law.IsKeyOf v (b.der cert))
              (sym (
                ap (λ (c : ServerConfig I). law.key c.inner) is_cfg
                ∙ (held.1 ∙ ap (λ (q : D × Bytes). q.1) is_pair)))
              says.4;
        alpn = ap (λ (c : ServerConfig I). c.alpn_protocols) is_cfg;
      }

  -- An `Arc` that holds what one run of `mint` for the host returned.
  abbrev pub MintedBy : Issuer C K → Str → ℕ × ServerConfig I → Type 0
  MintedBy issuer host (arc, cfg) = (w : W) × (mint b issuer w host ≡ ok cfg)

  -- However the calls of `server_config_for` interleave, share and fail: a configuration that one of
  -- them returned presents a single certificate, which names the call's own host in the subject and
  -- as its only alternative name, is no CA, is signed by the session's CA and belongs to the key
  -- held; and it offers HTTP/2 before HTTP/1.1.
  pub Run-IsLeaf :
      {host : ℕ → Str} {c : CaContext (ℕ × ServerConfig I)} (issuer : Issuer C K) (t arc : ℕ)
      (cfg : ServerConfig I)
      → Run (MintedBy issuer) host c
      → c.phase t ≡ Phase.returned (arc, cfg)
      → IsLeaf issuer (c.host t) cfg
  Run-IsLeaf {c = c} issuer t arc cfg r p =
      let (w, minted) = Run-Mints t (arc, cfg) r p in mint-IsLeaf issuer w (c.host t) cfg minted
