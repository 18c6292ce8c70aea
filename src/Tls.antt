-- ===== src/Tls.antt =====
-- native/condukt_egress/src/proxy/tls.rs: the cache of server configurations. A call of
-- `server_config_for` is cut where it holds no lock, so that other calls may run in between. What is
-- shared is an `Arc` of type `S`; `Minting` says what stands in it.
pub mod Cache
pub mod Calls
pub mod Minting
pub mod Tests
use condukt.Prelude.{ℕ, ◌≡◌, Bool, List, [], Option, none, some, Str, ◌==◌, if◌then◌else◌}
use condukt.Prelude.Map
use condukt.Prelude.Map.{Map}
use condukt.Tls.Minting.{TlsError}

-- Where a call stands: before the lookup, minting outside of the lock, with what it minted, returned
-- with a configuration, or with the error of `mint`.
pub data Phase (S : Type 0) : Type 0 where
  starting : Phase S
  minting : Phase S
  minted : S → Phase S
  returned : S → Phase S
  failed : TlsError → Phase S

-- Calls are numbered, and `host t` is the argument of call `t`.
pub record CaContext (S : Type 0) : Type 0 where
  pub leaf_cache : Map S
  pub host : ℕ → Str
  pub phase : ℕ → Phase S

module _ {S : Type 0} where
  abbrev pub update : (ℕ → Phase S) → ℕ → Phase S → ℕ → Phase S
  update f t p u = if t == u then p else f u

  -- the empty cache of a loaded CA, for the calls to come
  abbrev pub start : (ℕ → Str) → CaContext S
  start host = record { leaf_cache = []; host = host; phase = λ t. Phase.starting }

  abbrev pub looked_up : Option S → Phase S
  looked_up (some cfg) = Phase.returned cfg
  looked_up none = Phase.minting

  -- the lookup, under the lock
  unfoldable pub look_up : ℕ → CaContext S → CaContext S
  look_up t c = record c { phase = update c.phase t (looked_up (Map.get (c.host t) c.leaf_cache)) }

  -- `self.mint(host)?`, outside of the lock
  unfoldable pub mint_ok : ℕ → S → CaContext S → CaContext S
  mint_ok t fresh c = record c { phase = update c.phase t (Phase.minted fresh) }

  unfoldable pub mint_failed : ℕ → TlsError → CaContext S → CaContext S
  mint_failed t e c = record c { phase = update c.phase t (Phase.failed e) }

  abbrev pub or_insert : Option S → Str → S → Map S → S × Map S
  or_insert (some cfg) host fresh cache = (cfg, cache)
  or_insert none host fresh cache = (fresh, Map.insert host fresh cache)

  -- `cache.entry(host).or_insert(fresh)`, under the lock
  unfoldable pub share : ℕ → S → CaContext S → CaContext S
  share t fresh c =
      let (cfg, cache) =
        or_insert (Map.get (c.host t) c.leaf_cache) (c.host t) fresh c.leaf_cache in
      record c { leaf_cache = cache; phase = update c.phase t (Phase.returned cfg) }
