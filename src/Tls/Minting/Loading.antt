-- ===== src/Tls/Minting/Loading.antt =====
-- How the loading of a CA ends.
use condukt.Prelude.{◌≡◌, refl, Str, Result, ok, err, ◌>>=◌, map_err}
use condukt.Tls.Minting.{
  CertificateParams, Crates, TlsError, read_ca, parse_ca_cert, parse_ca_key, rcgen, Issuer,
  from_pem, load,
}

-- The ways in which the CA in two files is loaded or refused, the first failure first: both files
-- are read before either is parsed, and the key is parsed before the certificate.
pub data Loads {C K O W D I : Type 0} (b : Crates C K O W D I) (read : Str → Result Str Str)
    (cert_path key_path : Str) : Result TlsError (Issuer C K) → Type 0 where
  no_cert_file :
      (e : Str)
      → read cert_path ≡ err e
      → Loads b read cert_path key_path (err (read_ca cert_path e))
  no_key_file :
      (cert_pem e : Str)
      → read cert_path ≡ ok cert_pem
      → read key_path ≡ err e
      → Loads b read cert_path key_path (err (read_ca key_path e))
  bad_key :
      (cert_pem key_pem e : Str)
      → read cert_path ≡ ok cert_pem
      → read key_path ≡ ok key_pem
      → b.key_from_pem key_pem ≡ err e
      → Loads b read cert_path key_path (err (parse_ca_key e))
  bad_cert :
      (cert_pem key_pem e : Str) (key : K)
      → read cert_path ≡ ok cert_pem
      → read key_path ≡ ok key_pem
      → b.key_from_pem key_pem ≡ ok key
      → b.params_from_ca_cert_pem cert_pem ≡ err e
      → Loads b read cert_path key_path (err (parse_ca_cert e))
  unsigned :
      (cert_pem key_pem e : Str) (key : K) (params : CertificateParams O)
      → read cert_path ≡ ok cert_pem
      → read key_path ≡ ok key_pem
      → b.key_from_pem key_pem ≡ ok key
      → b.params_from_ca_cert_pem cert_pem ≡ ok params
      → b.self_signed params key ≡ err e
      → Loads b read cert_path key_path (err (rcgen e))
  loaded :
      (cert_pem key_pem : Str) (key : K) (params : CertificateParams O) (cert : C)
      → read cert_path ≡ ok cert_pem
      → read key_path ≡ ok key_pem
      → b.key_from_pem key_pem ≡ ok key
      → b.params_from_ca_cert_pem cert_pem ≡ ok params
      → b.self_signed params key ≡ ok cert
      → Loads b read cert_path key_path (ok (record { cert = cert; key = key }))

module _ {C K O W D I : Type 0} (b : Crates C K O W D I) (read : Str → Result Str Str)
    (cert_path key_path : Str) where
  module _ (cert_pem key_pem : Str) (has_cert : read cert_path ≡ ok cert_pem)
      (has_key : read key_path ≡ ok key_pem) where
    sign-Loads :
        (key : K) (params : CertificateParams O) (r : Result Str C)
        → b.key_from_pem key_pem ≡ ok key
        → b.params_from_ca_cert_pem cert_pem ≡ ok params
        → b.self_signed params key ≡ r
        → Loads b read cert_path key_path
            (map_err rcgen r >>= λ cert. ok (record { cert = cert; key = key }))
    sign-Loads key params (ok cert) k p e =
        loaded cert_pem key_pem key params cert has_cert has_key k p e
    sign-Loads key params (err t) k p e =
        unsigned cert_pem key_pem t key params has_cert has_key k p e

    cert-Loads :
        (key : K) (r : Result Str (CertificateParams O))
        → b.key_from_pem key_pem ≡ ok key
        → b.params_from_ca_cert_pem cert_pem ≡ r
        → Loads b read cert_path key_path (
            map_err parse_ca_cert r >>= λ params.
            map_err rcgen (b.self_signed params key) >>= λ cert.
            ok (record { cert = cert; key = key }))
    cert-Loads key (ok params) k p = sign-Loads key params (b.self_signed params key) k p refl
    cert-Loads key (err t) k p = bad_cert cert_pem key_pem t key has_cert has_key k p

    key-Loads :
        (r : Result Str K)
        → b.key_from_pem key_pem ≡ r
        → Loads b read cert_path key_path (
            map_err parse_ca_key r >>= λ key.
            map_err parse_ca_cert (b.params_from_ca_cert_pem cert_pem) >>= λ params.
            map_err rcgen (b.self_signed params key) >>= λ cert.
            ok (record { cert = cert; key = key }))
    key-Loads (ok key) k = cert-Loads key (b.params_from_ca_cert_pem cert_pem) k refl
    key-Loads (err t) k = bad_key cert_pem key_pem t has_cert has_key k

    from_pem-Loads : Loads b read cert_path key_path (from_pem b cert_pem key_pem)
    unfolding from_pem
    from_pem-Loads = key-Loads (b.key_from_pem key_pem) refl

  key_file-Loads :
      (cert_pem : Str) (r : Result Str Str)
      → read cert_path ≡ ok cert_pem
      → read key_path ≡ r
      → Loads b read cert_path key_path
          (map_err (read_ca key_path) r >>= λ key_pem. from_pem b cert_pem key_pem)
  key_file-Loads cert_pem (ok key_pem) h k = from_pem-Loads cert_pem key_pem h k
  key_file-Loads cert_pem (err t) h k = no_key_file cert_pem t h k

  cert_file-Loads :
      (r : Result Str Str)
      → read cert_path ≡ r
      → Loads b read cert_path key_path (
          map_err (read_ca cert_path) r >>= λ cert_pem.
          map_err (read_ca key_path) (read key_path) >>= λ key_pem. from_pem b cert_pem key_pem)
  cert_file-Loads (ok cert_pem) h = key_file-Loads cert_pem (read key_path) h refl
  cert_file-Loads (err t) h = no_cert_file t h

  -- Loading a CA ends in one of the ways of `Loads`: the first of these that fails gives the
  -- error, and with none the issuer is the key in the one file and the certificate that this key
  -- signs for the parameters in the other. The steps are: reading the certificate's file, reading
  -- the key's file, parsing the key, parsing the certificate, signing.
  pub load-Loads : Loads b read cert_path key_path (load b read cert_path key_path)
  unfolding load
  load-Loads = cert_file-Loads (read cert_path) refl
