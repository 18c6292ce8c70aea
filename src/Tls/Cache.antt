-- ===== src/Tls/Cache.antt =====
-- Calls for one host share one configuration, and it is one that was minted for that host.
use condukt.Prelude.{
  ℕ, ◌≡◌, some, Str, ◌==◌, ==_iff, arith, Option-cases, Bool-cases, inl, inr, subst, str_eq,
  str_eq_iff,
}
use condukt.Prelude.Map
use condukt.Prelude.Map.{Map, get-insert}
use condukt.Tls.Minting.{TlsError}
use condukt.Tls.{Phase, CaContext, start, look_up, mint_ok, mint_failed, share}

-- One step of one call, where `Mints host` are the results that `mint` may have for the host.
pub data Step {S : Type 0} (Mints : Str → S → Type 0) : CaContext S → CaContext S → Type 0 where
  looks_up : {c : CaContext S} (t : ℕ) → c.phase t ≡ Phase.starting → Step Mints c (look_up t c)
  mints :
      {c : CaContext S} (t : ℕ) (fresh : S)
      → c.phase t ≡ Phase.minting
      → Mints (c.host t) fresh
      → Step Mints c (mint_ok t fresh c)
  fails :
      {c : CaContext S} (t : ℕ) (e : TlsError)
      → c.phase t ≡ Phase.minting
      → Step Mints c (mint_failed t e c)
  shares :
      {c : CaContext S} (t : ℕ) (fresh : S)
      → c.phase t ≡ Phase.minted fresh
      → Step Mints c (share t fresh c)

pub data Run {S : Type 0} (Mints : Str → S → Type 0) (host : ℕ → Str) : CaContext S → Type 0 where
  here : Run Mints host (start host)
  next : {c d : CaContext S} → Run Mints host c → Step Mints c d → Run Mints host d

-- What a call returned stands in the cache under its host, and what stands in the cache, and what a
-- call holds, was minted for its host.
record Inv {S : Type 0} (Mints : Str → S → Type 0) (c : CaContext S) : Type 0 where
  cached :
      (t : ℕ) (cfg : S)
      → c.phase t ≡ Phase.returned cfg
      → Map.get (c.host t) c.leaf_cache ≡ some cfg
  held : (t : ℕ) (cfg : S) → c.phase t ≡ Phase.minted cfg → Mints (c.host t) cfg
  stored : (k : Str) (cfg : S) → Map.get k c.leaf_cache ≡ some cfg → Mints k cfg

module _ {S : Type 0} {Mints : Str → S → Type 0} {c : CaContext S} (t : ℕ) (i : Inv Mints c) where
  look_up-Inv : Inv Mints (look_up t c)
  unfolding look_up
  look_up-Inv = record {
    cached = λ u cfg h. elim (Option-cases (Map.get (c.host t) c.leaf_cache)) [
      | inl e ↦ i.cached u cfg (ground arith)
      | inr (found, e) ↦ ground (arith, ==_iff t u, i.cached u cfg)
    ];
    held = λ u cfg h. elim (Option-cases (Map.get (c.host t) c.leaf_cache)) [
      | inl e ↦ i.held u cfg (ground arith)
      | inr (found, e) ↦ i.held u cfg (ground arith)
    ];
    stored = i.stored;
  }

  mint_ok-Inv : (fresh : S) → Mints (c.host t) fresh → Inv Mints (mint_ok t fresh c)
  unfolding mint_ok
  mint_ok-Inv fresh m = record {
    cached = λ u cfg h. i.cached u cfg (ground arith);
    held = λ u cfg h. elim (Bool-cases (t == u)) [
      | inl same ↦
          subst (λ v. Mints (c.host v) cfg) ((==_iff t u).0 same)
            (subst (λ f. Mints (c.host t) f) (ground (arith, h, same)) m)
      | inr other ↦ i.held u cfg (ground (arith, h, other))
    ];
    stored = i.stored;
  }

  mint_failed-Inv : (e : TlsError) → Inv Mints (mint_failed t e c)
  unfolding mint_failed
  mint_failed-Inv e = record {
    cached = λ u cfg h. i.cached u cfg (ground arith);
    held = λ u cfg h. i.held u cfg (ground arith);
    stored = i.stored;
  }

  share-Inv : (fresh : S) → c.phase t ≡ Phase.minted fresh → Inv Mints (share t fresh c)
  unfolding share
  share-Inv fresh p = elim (Option-cases (Map.get (c.host t) c.leaf_cache)) [
    | inl e ↦ record {
      cached = λ u cfg h. ground (
        arith,
        ==_iff t u,
        i.cached u cfg,
        get-insert (c.host t) (c.host u) fresh c.leaf_cache,
        str_eq_iff (c.host t) (c.host u),
      );
      held = λ u cfg h. i.held u cfg (ground arith);
      stored = λ k cfg h. elim (Bool-cases (str_eq (c.host t) k)) [
        | inl same ↦
            subst (λ j. Mints j cfg) ((str_eq_iff (c.host t) k).0 same)
              (subst (λ f. Mints (c.host t) f)
                (ground (arith, h, same, get-insert (c.host t) k fresh c.leaf_cache))
                (i.held t fresh p))
        | inr other ↦
            i.stored k cfg (ground (arith, h, other, get-insert (c.host t) k fresh c.leaf_cache))
      ];
    }
    | inr (found, e) ↦ record {
      cached = λ u cfg h. ground (arith, ==_iff t u, i.cached u cfg);
      held = λ u cfg h. i.held u cfg (ground arith);
      stored = λ k cfg h. i.stored k cfg (ground arith);
    }
  ]

module _ {S : Type 0} {Mints : Str → S → Type 0} where
  Step-Inv : {c d : CaContext S} → Step Mints c d → Inv Mints c → Inv Mints d
  Step-Inv (looks_up t p) i = look_up-Inv t i
  Step-Inv (mints t fresh p m) i = mint_ok-Inv t i fresh m
  Step-Inv (fails t e p) i = mint_failed-Inv t i e
  Step-Inv (shares t fresh p) i = share-Inv t i fresh p

  Run-Inv : {host : ℕ → Str} {c : CaContext S} → Run Mints host c → Inv Mints c
  Run-Inv here = record {
    cached = λ t cfg h. absurd (ground arith);
    held = λ t cfg h. absurd (ground arith);
    stored = λ k cfg h. absurd (unfold Map.get in ground arith);
  }
  Run-Inv (next r s) = Step-Inv s (Run-Inv r)

  -- However the calls interleave, and whatever each of them mints: two calls for one host that
  -- returned a configuration returned the same, and the cache holds it under that host.
  pub Run-shares :
      {host : ℕ → Str} {c : CaContext S} (t u : ℕ) (cfg other : S)
      → Run Mints host c
      → c.host t ≡ c.host u
      → c.phase t ≡ Phase.returned cfg
      → c.phase u ≡ Phase.returned other
      → (cfg ≡ other) × (Map.get (c.host t) c.leaf_cache ≡ some cfg)
  Run-shares t u cfg other r same p q =
      let i = Run-Inv r in
      let first = i.cached t cfg p in
      let second = i.cached u other q in (ground (arith, first, second, same), first)

  -- A call returns only what was minted for its own host.
  pub Run-Mints :
      {host : ℕ → Str} {c : CaContext S} (t : ℕ) (cfg : S)
      → Run Mints host c
      → c.phase t ≡ Phase.returned cfg
      → Mints (c.host t) cfg
  Run-Mints {c = c} t cfg r p = let i = Run-Inv r in i.stored (c.host t) cfg (i.cached t cfg p)
