-- ===== src/Tls/Tests.antt =====
-- Two calls for one host that both mint, with crates written out, and the theorems at them.
use condukt.Prelude.{
  ℕ, ◌≡◌, refl, sym, ap, ok_injective, [], ◌∷◌, List, Str, codes, some, Result, ok, err,
}
use condukt.Prelude.Bytes.{Bytes}
use condukt.Prelude.Map
use condukt.Tls
use condukt.Tls.{Phase, CaContext, look_up, mint_ok, share}
use condukt.Tls.Cache.{Run, here, next, looks_up, mints, shares, Run-shares}
use condukt.Tls.Minting.{
  CertificateParams, ca, Crates, Issuer, ServerConfig, read_ca, mint, load, with_alpn,
  with_leaf_fields,
}
use condukt.Tls.Minting.Leaf.{Certifying, MintedBy}

-- A certificate is its parameters, its key and its issuer's key; it is encoded as itself. Keys are
-- numbers, and a configuration holds what it is given.
abbrev pub Cert : Type 0
Cert = CertificateParams (Unit {0}) × ℕ × ℕ

abbrev no_params : CertificateParams (Unit {0})
no_params = record {
  distinguished_name = [];
  is_ca = ca;
  key_usages = [];
  subject_alt_names = [];
  others = tt;
}

abbrev pub crates : Crates Cert ℕ (Unit {0}) ℕ Cert (List Cert × Bytes)
crates = record {
  key_from_pem = λ pem. ok 7;
  params_from_ca_cert_pem = λ pem. ok no_params;
  self_signed = λ p k. ok (p, k, k);
  new = λ names. ok no_params;
  ia5_string = λ s. ok s;
  generate = λ w. ok w;
  signed_by = λ p k c issuer_key. ok (p, k, issuer_key);
  der = λ c. c;
  serialize_der = λ k. k ∷ [];
  with_single_cert = λ certs k. ok (certs, k);
}

-- the laws at these crates
pub law : Certifying crates
law = record {
  names = λ (c : Cert). c.0.subject_alt_names;
  subject = λ (c : Cert). c.0.distinguished_name;
  authority = λ (c : Cert). c.0.is_ca;
  IsSignedBy = λ (d c : Cert) k. d.2 ≡ k;
  IsKeyOf = λ bytes (d : Cert). bytes ≡ d.1 ∷ [];
  chain = λ (i : List Cert × Bytes). i.0;
  key = λ (i : List Cert × Bytes). i.1;
  ia5_string_keeps = λ s t h. sym (ok_injective s t h);
  signed_by_says = λ p k c issuer_key cert h.
      let made = sym (ok_injective (p, k, issuer_key) cert h) in
      (
        ap (λ (d : Cert). d.0.subject_alt_names) made,
        ap (λ (d : Cert). d.0.distinguished_name) made,
        ap (λ (d : Cert). d.0.is_ca) made,
        ap (λ (d : Cert). d.2) made,
        ap (λ (d : Cert). d.1 ∷ []) (sym made),
      );
  with_single_cert_holds = λ certs k inner h.
      let made = sym (ok_injective (certs, k) inner h) in
      (ap (λ (i : List Cert × Bytes). i.0) made, ap (λ (i : List Cert × Bytes). i.1) made);
}

abbrev pub issuer : Issuer Cert ℕ
issuer = record { cert = (no_params, 7, 7); key = 7 }

abbrev host : ℕ → Str
host t = codes "a.org"

-- what `mint` returns for a name with the fresh key `k`
abbrev pub config_for : Str → ℕ → ServerConfig (List Cert × Bytes)
config_for name k =
    with_alpn crates ((with_leaf_fields crates name name no_params, k, 7) ∷ [], k ∷ [])

pub minted_for : (name : Str) (k : ℕ) → mint crates issuer k name ≡ ok (config_for name k)
unfolding mint
minted_for name k = refl

abbrev config : ℕ → ServerConfig (List Cert × Bytes)
config k = config_for (codes "a.org") k

abbrev pub Shared : Type 0
Shared = ℕ × ServerConfig (List Cert × Bytes)

abbrev both_minted : CaContext Shared
both_minted =
    mint_ok 1 (11, config 21) (mint_ok 0 (10, config 20) (look_up 1 (look_up 0 (Tls.start host))))

abbrev final : CaContext Shared
final = share 0 (10, config 20) (share 1 (11, config 21) both_minted)

final-Run : Run (MintedBy crates law issuer) host final
unfolding look_up mint_ok share Map.get Map.insert
final-Run =
    next
      (next
        (next
          (next (next (next here (looks_up 0 refl)) (looks_up 1 refl))
            (mints 0 (10, config 20) refl (20, minted_for (codes "a.org") 20)))
          (mints 1 (11, config 21) refl (21, minted_for (codes "a.org") 21)))
        (shares 1 (11, config 21) refl))
      (shares 0 (10, config 20) refl)

returns_first : final.phase 0 ≡ Phase.returned (11, config 21)
unfolding look_up mint_ok share Map.get Map.insert
returns_first = refl

returns_second : final.phase 1 ≡ Phase.returned (11, config 21)
unfolding look_up mint_ok share Map.get Map.insert
returns_second = refl

same_host : final.host 0 ≡ final.host 1
unfolding share mint_ok look_up
same_host = refl

Run-shares_example :
    ◌≡◌ {A = Shared} (11, config 21) (11, config 21)
    × (Map.get (final.host 0) final.leaf_cache ≡ some (11, config 21))
Run-shares_example =
    Run-shares 0 1 (11, config 21) (11, config 21) final-Run same_host returns_first returns_second

-- the certificate's file is there, and the key's is not
abbrev read : Str → Result Str Str
read [] = err (codes "missing")
read (c ∷ path) = ok (codes "pem")

key_file_missing : load crates read (codes "ca.pem") [] ≡ err (read_ca [] (codes "missing"))
unfolding load
key_file_missing = refl
