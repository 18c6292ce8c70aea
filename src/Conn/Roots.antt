-- ===== src/Conn/Roots.antt =====
-- `build_tls_connector` and `load_system_roots`: the certificates that an upstream is checked
-- against. The file system and the crates are parameters.
pub mod Loading
use condukt.Prelude.{
  Bool, true, false, List, [], ◌∷◌, Option, none, some, Str, codes, Result, ok, err, if◌then◌else◌,
}
use condukt.Conn.Outcome.{Outcome}

-- an item of a PEM file
pub data Item (D : Type 0) : Type 0 where
  x509_certificate : D → Item D
  other : Item D

abbrev pub roots_path : Str
roots_path = codes "/etc/ssl/certs/ca-certificates.crt"

-- what `read` finds in a file, as the results of `read_one` up to the end, and which certificates
-- the store takes
pub record Store (D : Type 0) : Type 0 where
  pub read : Str → Option (List (Result Str (Item D)))
  pub accepts : D → Bool

pub record ClientConfig (D : Type 0) : Type 0 where
  pub roots : List D
  pub alpn_protocols : List Str

module _ {D : Type 0} where
  -- the loop ends at the first item that cannot be read
  abbrev pub certificates : List (Result Str (Item D)) → List D
  certificates [] = []
  certificates (err e ∷ rest) = []
  certificates (ok (x509_certificate der) ∷ rest) = der ∷ certificates rest
  certificates (ok other ∷ rest) = certificates rest

  abbrev pub out_of : Option (List (Result Str (Item D))) → List D
  out_of none = []
  out_of (some items) = certificates items

  unfoldable pub load_system_roots : Store D → List D
  load_system_roots s = out_of (s.read roots_path)

  -- `roots.add`, whose error is dropped
  abbrev pub add_all : (D → Bool) → List D → List D
  add_all accepts [] = []
  add_all accepts (der ∷ rest) =
      let others = add_all accepts rest in if accepts der then der ∷ others else others

  unfoldable pub client_config : Store D → ClientConfig D
  unfolding load_system_roots
  client_config s = record {
    roots = add_all s.accepts (load_system_roots s);
    alpn_protocols = codes "h2" ∷ codes "http/1.1" ∷ [];
  }

  -- `CONFIG.get_or_init`
  abbrev pub get_or_init : Option (ClientConfig D) → ClientConfig D → ClientConfig D
  get_or_init none fresh = fresh
  get_or_init (some cfg) fresh = cfg

  -- The connector's configuration, and what the cell then holds. It never fails.
  unfoldable pub build_tls_connector :
      Store D → Option (ClientConfig D) → Outcome (ClientConfig D) × Option (ClientConfig D)
  unfolding client_config
  build_tls_connector s cell = let cfg = get_or_init cell (client_config s) in (ok cfg, some cfg)
