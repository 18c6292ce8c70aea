-- ===== src/Microsandbox/Opening/Volumes.antt =====
-- What a new microVM may write to on the host.
use condukt.Prelude.{◌≡◌, refl, true, false, Bool, List, [], ◌∷◌, Str, ◌⊎◌, inl, inr, Any}
use condukt.Prelude.Paths.{IsWithin}
use condukt.Microsandbox.Opening.{
  MountMode, MountSpec, SessionConfig, Builder, bind_volume, add_env, add_mounts, base_builder,
  replaced, build_builder,
}

-- Which host paths a volume and a builder open for writing, and what the crate documents of them.
pub record Confines {U V H W : Type 0} (b : Builder U V H W) : Type 1 where
  pub IsWritable : U → Str → Type 0
  -- what a volume that is made in this way opens
  pub Opens : (V → V) → Str → Type 0
  pub base_opens_nothing : (c : SessionConfig) (host : Str) → IsWritable (base_builder b c) host → ⊥
  pub replace_opens_nothing :
      (u : U) (host : Str) → IsWritable (b.replace u) host → IsWritable u host
  pub env_opens_nothing :
      (key value : Str) (u : U) (host : Str)
      → IsWritable (b.env key value u) host
      → IsWritable u host
  pub volume_opens_its_own :
      (guest : Str) (f : V → V) (u : U) (host : Str)
      → IsWritable (b.volume guest f u) host
      → Opens f host ⊎ IsWritable u host
  pub readonly_opens_nothing : (f : V → V) (host : Str) → Opens (λ v. b.readonly (f v)) host → ⊥
  pub bind_opens_its_tree : (path host : Str) → Opens (b.bind path) host → IsWithin path host

abbrev pub OpensTree : Str → MountSpec → Type 0
OpensTree host m = (m.mode ≡ MountMode.readwrite) × IsWithin m.host_path host

module _ {U V H W : Type 0} (b : Builder U V H W) (law : Confines b) (host : Str) where
  bind_volume_opens :
      (m : MountSpec) (mode : MountMode)
      → m.mode ≡ mode
      → law.Opens (bind_volume b mode m.host_path) host
      → OpensTree host m
  bind_volume_opens m MountMode.readonly e h =
      absurd (law.readonly_opens_nothing (b.bind m.host_path) host h)
  bind_volume_opens m MountMode.readwrite e h = (e, law.bind_opens_its_tree m.host_path host h)

  add_mounts_opens :
      (mounts : List MountSpec) (u : U)
      → law.IsWritable (add_mounts b mounts u) host
      → Any (OpensTree host) mounts ⊎ law.IsWritable u host
  add_mounts_opens [] u h = inr h
  add_mounts_opens (m ∷ ms) u h =
      elim (add_mounts_opens ms (b.volume m.guest_path (bind_volume b m.mode m.host_path) u) h) [
        | inl later ↦ inl (inr later)
        | inr here ↦
            elim (law.volume_opens_its_own m.guest_path (bind_volume b m.mode m.host_path) u host
              here) [
                | inl own ↦ inl (inl (bind_volume_opens m m.mode refl own))
                | inr before ↦ inr before
              ]
      ]

  add_env_opens :
      (env : List (Str × Str)) (u : U)
      → law.IsWritable (add_env b env u) host
      → law.IsWritable u host
  add_env_opens [] u h = h
  add_env_opens ((key, value) ∷ rest) u h =
      law.env_opens_nothing key value u host (add_env_opens rest (b.env key value u) h)

  replaced_opens :
      (replace : Bool) (u : U) → law.IsWritable (replaced b replace u) host → law.IsWritable u host
  replaced_opens true u h = law.replace_opens_nothing u host h
  replaced_opens false u h = h

  -- A path of the host can be written from a microVM only where one of the configuration's mounts
  -- with the mode `readwrite` names it or a directory above it.
  pub build_builder_opens :
      (c : SessionConfig) → law.IsWritable (build_builder b c) host → Any (OpensTree host) c.mounts
  unfolding build_builder
  build_builder_opens c h = elim (add_mounts_opens c.mounts _ h) [
    | inl named ↦ named
    | inr before ↦ absurd (
        law.base_opens_nothing c host
          (replaced_opens c.replace_existing _ (add_env_opens c.env _ before)))
  ]
