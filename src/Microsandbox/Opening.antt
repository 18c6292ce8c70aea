-- ===== src/Microsandbox/Opening.antt =====
-- native/condukt_microsandbox/src/lib.rs: `new_session` and `build_builder`. The crate's builder is a
-- parameter.
pub mod Volumes
use condukt.Prelude.{ℕ, Bool, true, false, List, [], ◌∷◌, some, Str, if◌then◌else◌, Result, ok, err}
use condukt.Microsandbox.{MicrosandboxError, Backend, Session, label_for_error}

pub data MountMode : Type 0 where
  readonly : MountMode
  readwrite : MountMode

pub record MountSpec : Type 0 where
  pub host_path : Str
  pub guest_path : Str
  pub mode : MountMode

pub record SessionConfig : Type 0 where
  pub name : Str
  pub image : Str
  pub cpus : ℕ
  pub memory_mib : ℕ
  pub cwd : Str
  pub shell : Str
  pub env : List (Str × Str)
  pub mounts : List MountSpec
  pub replace_existing : Bool

-- The builder `U` of a sandbox `H`, with volumes `V`, in a world `W`.
pub record Builder (U V H W : Type 0) : Type 0 where
  pub builder : Str → U
  pub image : Str → U → U
  pub cpus : ℕ → U → U
  pub memory : ℕ → U → U
  pub workdir : Str → U → U
  pub shell : Str → U → U
  pub replace : U → U
  pub env : Str → Str → U → U
  pub volume : Str → (V → V) → U → U
  pub bind : Str → V → V
  pub readonly : V → V
  pub create : U → W → Result MicrosandboxError H × W

module _ {U V H W : Type 0} (b : Builder U V H W) where
  abbrev pub bind_volume : MountMode → Str → V → V
  bind_volume MountMode.readonly host v = b.readonly (b.bind host v)
  bind_volume MountMode.readwrite host v = b.bind host v

  abbrev pub add_env : List (Str × Str) → U → U
  add_env [] u = u
  add_env ((key, value) ∷ rest) u = add_env rest (b.env key value u)

  abbrev pub add_mounts : List MountSpec → U → U
  add_mounts [] u = u
  add_mounts (m ∷ ms) u = add_mounts ms (b.volume m.guest_path (bind_volume m.mode m.host_path) u)

  abbrev pub base_builder : SessionConfig → U
  base_builder c =
      b.shell c.shell (
        b.workdir c.cwd
          (b.memory c.memory_mib (b.cpus c.cpus (b.image c.image (b.builder c.name)))))

  abbrev pub replaced : Bool → U → U
  replaced true u = b.replace u
  replaced false u = u

  unfoldable pub build_builder : SessionConfig → U
  build_builder c =
      add_mounts c.mounts (add_env c.env (replaced c.replace_existing (base_builder c)))

  -- a session over the created sandbox, with sound locks, or the label of the error
  abbrev pub opened_session :
      Backend H W → Result MicrosandboxError H × W → Result Str (Session H) × W
  opened_session vm (ok h, w) = (
    ok (record {
      sandbox = some h;
      sandbox_poisoned = false;
      runtime_poisoned = false;
      detached = false;
    }),
    w,
  )
  opened_session vm (err e, w) = (err (label_for_error vm e), w)

  unfoldable pub new_session : Backend H W → SessionConfig → W → Result Str (Session H) × W
  unfolding build_builder label_for_error
  new_session vm c w = opened_session vm (b.create (build_builder c) w)
