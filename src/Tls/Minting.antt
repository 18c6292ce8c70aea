-- ===== src/Tls/Minting.antt =====
-- native/condukt_egress/src/proxy/tls.rs: loading the session's CA, and the configuration that is
-- minted for a host. The crates rcgen and rustls are parameters, and so is the file system.
pub mod Leaf
pub mod Loading
use condukt.Prelude.{List, [], ◌∷◌, ◌++◌, Str, codes, Result, ok, err, ◌>>=◌, map_err}
use condukt.Prelude.Bytes.{Bytes}
use condukt.Prelude.Map
use condukt.Prelude.Map.{Map}

-- rcgen's names, as far as the code uses them; `others` is what the code leaves as it is
pub data DnType : Type 0 where
  common_name : DnType

pub data IsCa : Type 0 where
  no_ca : IsCa
  ca : IsCa

pub data KeyUsagePurpose : Type 0 where
  digital_signature : KeyUsagePurpose
  key_encipherment : KeyUsagePurpose

pub data SanType : Type 0 where
  dns_name : Str → SanType

pub record CertificateParams (O : Type 0) : Type 0 where
  pub distinguished_name : List (DnType × Str)
  pub is_ca : IsCa
  pub key_usages : List KeyUsagePurpose
  pub subject_alt_names : List SanType
  pub others : O

-- What the crates do, for certificates `C` and their encodings `D`, key pairs `K`, and what a
-- configuration holds besides its protocols, `I`. An error is its text. `W` is where a fresh key
-- comes from.
pub record Crates (C K O W D I : Type 0) : Type 0 where
  pub key_from_pem : Str → Result Str K
  pub params_from_ca_cert_pem : Str → Result Str (CertificateParams O)
  pub self_signed : CertificateParams O → K → Result Str C
  pub new : List Str → Result Str (CertificateParams O)
  pub ia5_string : Str → Result Str Str
  pub generate : W → Result Str K
  -- the parameters, the key of the subject, and certificate and key of the issuer
  pub signed_by : CertificateParams O → K → C → K → Result Str C
  pub der : C → D
  pub serialize_der : K → Bytes
  pub with_single_cert : List D → Bytes → Result Str I

pub data TlsError : Type 0 where
  read_ca : Str → Str → TlsError
  parse_ca_cert : Str → TlsError
  parse_ca_key : Str → TlsError
  rcgen : Str → TlsError
  rustls : Str → TlsError

-- the text of an error
unfoldable pub to_string : TlsError → Str
to_string (read_ca path e) = codes "reading CA file " ++ (path ++ (codes ": " ++ e))
to_string (parse_ca_cert e) = codes "parsing CA cert: " ++ e
to_string (parse_ca_key e) = codes "parsing CA key: " ++ e
to_string (rcgen e) = codes "rcgen: " ++ e
to_string (rustls e) = codes "rustls: " ++ e

-- the issuer of a `CaContext`
pub record Issuer (C K : Type 0) : Type 0 where
  pub cert : C
  pub key : K

pub record ServerConfig (I : Type 0) : Type 0 where
  pub inner : I
  pub alpn_protocols : List Str

module _ {C K O W D I : Type 0} (b : Crates C K O W D I) where
  unfoldable pub from_pem : Str → Str → Result TlsError (Issuer C K)
  from_pem cert_pem key_pem = do
    issuer_key ← map_err parse_ca_key (b.key_from_pem key_pem)
    issuer_params ← map_err parse_ca_cert (b.params_from_ca_cert_pem cert_pem)
    issuer_cert ← map_err rcgen (b.self_signed issuer_params issuer_key)
    ok (record { cert = issuer_cert; key = issuer_key })

  unfoldable pub load : (Str → Result Str Str) → Str → Str → Result TlsError (Issuer C K)
  unfolding from_pem
  load read_to_string cert_path key_path = do
    cert_pem ← map_err (read_ca cert_path) (read_to_string cert_path)
    key_pem ← map_err (read_ca key_path) (read_to_string key_path)
    from_pem cert_pem key_pem

  -- the parameters, with the host's text as a name
  abbrev pub with_leaf_fields : Str → Str → CertificateParams O → CertificateParams O
  with_leaf_fields host san params = record params {
    distinguished_name = (common_name, host) ∷ [];
    is_ca = no_ca;
    key_usages = digital_signature ∷ key_encipherment ∷ [];
    subject_alt_names = dns_name san ∷ [];
  }

  unfoldable pub leaf_params : Str → Result TlsError (CertificateParams O)
  leaf_params host = do
    params ← map_err rcgen (b.new (host ∷ []))
    san ← map_err rcgen (b.ia5_string host)
    ok (with_leaf_fields host san params)

  unfoldable pub build_leaf : Issuer C K → W → Str → Result TlsError (D × Bytes)
  unfolding leaf_params
  build_leaf issuer w host = do
    params ← leaf_params host
    leaf_key ← map_err rcgen (b.generate w)
    leaf_cert ← map_err rcgen (b.signed_by params leaf_key issuer.cert issuer.key)
    ok (b.der leaf_cert, b.serialize_der leaf_key)

  abbrev pub with_alpn : I → ServerConfig I
  with_alpn inner = record { inner = inner; alpn_protocols = codes "h2" ∷ codes "http/1.1" ∷ [] }

  unfoldable pub mint : Issuer C K → W → Str → Result TlsError (ServerConfig I)
  unfolding build_leaf
  mint issuer w host = do
    leaf ← build_leaf issuer w host
    inner ← map_err rustls (b.with_single_cert (leaf.0 ∷ []) leaf.1)
    ok (with_alpn inner)
