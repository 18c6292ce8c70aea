-- ===== src/Tls/Calls.antt =====
-- The steps of one call of `server_config_for` among those of the others.
use condukt.Prelude.{ℕ, ◌≡◌, refl, ◌∙◌, Str, ==_iff, arith}
use condukt.Tls.Minting.{TlsError}
use condukt.Tls.{Phase, CaContext, look_up, mint_ok, mint_failed, share}
use condukt.Tls.Cache.{Step, looks_up, mints, fails, shares, Run, here, next}

module _ {S : Type 0} {Mints : Str → S → Type 0} where
  -- whose step it is
  abbrev pub caller : {c d : CaContext S} → Step Mints c d → ℕ
  caller (looks_up t p) = t
  caller (mints t fresh p m) = t
  caller (fails t e p) = t
  caller (shares t fresh p) = t

  -- What a call has returned stays so, whoever makes the next step.
  pub returned-kept :
      {c d : CaContext S} (t : ℕ) (cfg : S)
      → Step Mints c d
      → c.phase t ≡ Phase.returned cfg
      → d.phase t ≡ Phase.returned cfg
  unfolding look_up mint_ok mint_failed share
  returned-kept t cfg (looks_up u p) h = ground (arith, ==_iff u t)
  returned-kept t cfg (mints u fresh p m) h = ground (arith, ==_iff u t)
  returned-kept t cfg (fails u e p) h = ground (arith, ==_iff u t)
  returned-kept t cfg (shares u fresh p) h = ground (arith, ==_iff u t)

  pub failed-kept :
      {c d : CaContext S} (t : ℕ) (e : TlsError)
      → Step Mints c d
      → c.phase t ≡ Phase.failed e
      → d.phase t ≡ Phase.failed e
  unfolding look_up mint_ok mint_failed share
  failed-kept t e (looks_up u p) h = ground (arith, ==_iff u t)
  failed-kept t e (mints u fresh p m) h = ground (arith, ==_iff u t)
  failed-kept t e (fails u x p) h = ground (arith, ==_iff u t)
  failed-kept t e (shares u fresh p) h = ground (arith, ==_iff u t)

  host-Step : {c d : CaContext S} → Step Mints c d → d.host ≡ c.host
  unfolding look_up mint_ok mint_failed share
  host-Step (looks_up u p) = refl
  host-Step (mints u fresh p m) = refl
  host-Step (fails u x p) = refl
  host-Step (shares u fresh p) = refl

  pub host-Run : {host : ℕ → Str} {c : CaContext S} → Run Mints host c → c.host ≡ host
  host-Run here = refl
  host-Run (next r s) = host-Step s ∙ host-Run r
