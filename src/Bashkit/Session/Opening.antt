-- ===== src/Bashkit/Session/Opening.antt =====
-- native/condukt_bashkit/src/lib.rs: `new_session` and `build_bash`. The crate's builder is a
-- parameter.
pub mod Mounts
use condukt.Prelude.{List, [], ◌∷◌, Str, Bool, false}
use condukt.Bashkit.Session.{MountMode, Session}

pub record MountSpec : Type 0 where
  pub host_path : Str
  pub vfs_path : Str
  pub mode : MountMode

-- the builder `U` of an interpreter `B`
pub record Builder (U B : Type 0) : Type 0 where
  pub builder : U
  pub mount_real_readonly_at : Str → Str → U → U
  pub mount_real_readwrite_at : Str → Str → U → U
  pub build : U → B

module _ {U B : Type 0} (b : Builder U B) where
  -- one round of the loop over the mounts
  abbrev pub mount_spec : MountSpec → MountMode → U → U
  mount_spec m MountMode.readonly u = b.mount_real_readonly_at m.host_path m.vfs_path u
  mount_spec m MountMode.readwrite u = b.mount_real_readwrite_at m.host_path m.vfs_path u

  abbrev pub mount_all : List MountSpec → U → U
  mount_all [] u = u
  mount_all (m ∷ ms) u = mount_all ms (mount_spec m m.mode u)

  -- it never fails
  unfoldable pub build_bash : List MountSpec → B
  build_bash mounts = b.build (mount_all mounts b.builder)

  unfoldable pub new_session : List MountSpec → Session B
  unfolding build_bash
  new_session mounts = record { bash = build_bash mounts; poisoned = false }

-- `shutdown`, which leaves everything to the drop of the resource
abbrev pub shutdown : {B : Type 0} → Session B → Session B
shutdown s = s
