-- ===== src/Bashkit/Session/Opening/Mounts.antt =====
-- What a new session may write to.
use condukt.Prelude.{◌≡◌, refl, List, [], ◌∷◌, Str, ◌⊎◌, inl, inr, Any}
use condukt.Prelude.Paths.{IsWithin}
use condukt.Bashkit.Session.{MountMode}
use condukt.Bashkit.Session.Opening.{
  MountSpec, Builder, mount_spec, mount_all, build_bash, new_session,
}

-- Which host paths can be written through a builder and through an interpreter, and what the crate
-- documents of them: a mount gives access to the tree at its path, to read or to write it.
pub record Confines {U B : Type 0} (b : Builder U B) : Type 1 where
  pub IsWritable : U → Str → Type 0
  pub IsOpened : B → Str → Type 0
  pub builder_opens_nothing : (host : Str) → IsWritable b.builder host → ⊥
  pub readonly_opens_nothing :
      (path vfs host : Str) (u : U)
      → IsWritable (b.mount_real_readonly_at path vfs u) host
      → IsWritable u host
  pub readwrite_opens_its_tree :
      (path vfs host : Str) (u : U)
      → IsWritable (b.mount_real_readwrite_at path vfs u) host
      → IsWithin path host ⊎ IsWritable u host
  pub build_opens_nothing : (host : Str) (u : U) → IsOpened (b.build u) host → IsWritable u host

abbrev pub OpensTree : Str → MountSpec → Type 0
OpensTree host m = (m.mode ≡ MountMode.readwrite) × IsWithin m.host_path host

module _ {U B : Type 0} (b : Builder U B) (law : Confines b) (host : Str) where
  mount_spec_opens :
      (m : MountSpec) (mode : MountMode) (u : U)
      → m.mode ≡ mode
      → law.IsWritable (mount_spec b m mode u) host
      → OpensTree host m ⊎ law.IsWritable u host
  mount_spec_opens m MountMode.readonly u e h =
      inr (law.readonly_opens_nothing m.host_path m.vfs_path host u h)
  mount_spec_opens m MountMode.readwrite u e h =
      elim (law.readwrite_opens_its_tree m.host_path m.vfs_path host u h) [
        | inl within ↦ inl (e, within)
        | inr before ↦ inr before
      ]

  mount_all_opens :
      (mounts : List MountSpec) (u : U)
      → law.IsWritable (mount_all b mounts u) host
      → Any (OpensTree host) mounts ⊎ law.IsWritable u host
  mount_all_opens [] u h = inr h
  mount_all_opens (m ∷ ms) u h = elim (mount_all_opens ms (mount_spec b m m.mode u) h) [
    | inl later ↦ inl (inr later)
    | inr here ↦ elim (mount_spec_opens m m.mode u refl here) [
      | inl opened ↦ inl (inl opened)
      | inr before ↦ inr before
    ]
  ]

  -- A path of the host can be written through a new session only where one of its mounts with the mode
  -- `readwrite` names it or a directory above it; a mount with the mode `readonly` opens nothing.
  pub new_session_opens :
      (mounts : List MountSpec)
      → law.IsOpened (new_session b mounts).bash host
      → Any (OpensTree host) mounts
  unfolding new_session build_bash
  new_session_opens mounts h =
      elim (mount_all_opens mounts b.builder (law.build_opens_nothing host _ h)) [
        | inl named ↦ named
        | inr before ↦ absurd (law.builder_opens_nothing host before)
      ]
