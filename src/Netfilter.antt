-- ===== src/Netfilter.antt =====
-- native/condukt_egress/src/netfilter.rs: the rules of the `nat` table's `OUTPUT` chain, and their
-- installation. Running the `iptables` binary is a parameter.
pub mod Chain
pub mod Installation
mod Tests
use condukt.Prelude.{ℕ, Bool, List, [], ◌∷◌, ◌++◌, Option, none, some, Str, codes, if◌then◌else◌}
use condukt.Prelude.Bytes.{trim}
use condukt.Prelude.Decimal.{decimal}

-- the options of the subcommand
pub record Args : Type 0 where
  pub proxy_port : ℕ
  pub sidecar_uid : ℕ
  pub iptables_bin : Str

abbrev pub rule : List Str → List Str
rule parts = codes "-t" ∷ codes "nat" ∷ parts

unfoldable pub build_rules : ℕ → ℕ → List (List Str)
unfolding decimal
build_rules proxy_port sidecar_uid =
    let port = decimal proxy_port in
    let uid = decimal sidecar_uid in
    rule (codes "-A" ∷ codes "OUTPUT" ∷ codes "-o" ∷ codes "lo" ∷ codes "-j" ∷ codes "RETURN" ∷ [])
    ∷ rule (
        codes "-A"
        ∷ codes "OUTPUT"
        ∷ codes "-m"
        ∷ codes "owner"
        ∷ codes "--uid-owner"
        ∷ uid
        ∷ codes "-j"
        ∷ codes "RETURN"
        ∷ [])
    ∷ rule (
        codes "-A"
        ∷ codes "OUTPUT"
        ∷ codes "-p"
        ∷ codes "tcp"
        ∷ codes "--dport"
        ∷ codes "80"
        ∷ codes "-j"
        ∷ codes "REDIRECT"
        ∷ codes "--to-port"
        ∷ port
        ∷ [])
    ∷ rule (
        codes "-A"
        ∷ codes "OUTPUT"
        ∷ codes "-p"
        ∷ codes "tcp"
        ∷ codes "--dport"
        ∷ codes "443"
        ∷ codes "-j"
        ∷ codes "REDIRECT"
        ∷ codes "--to-port"
        ∷ port
        ∷ [])
    ∷ []

-- What a process that has ended shows: `stderr` is its output, read lossily.
pub record Output : Type 0 where
  pub success : Bool
  pub code : Option ℕ
  pub stderr : Str

-- the process did not start, or it ended
pub data Ran : Type 0 where
  not_started : Str → Ran
  ended : Output → Ran

-- `Command::output` over the state `T` of the system's tables, and `Debug` of the standard library
pub record System {ℓ} (T : Type ℓ) : Type ℓ where
  pub output : Str → List Str → T → Ran × T
  pub debug_argv : List Str → Str
  pub debug_code : Option ℕ → Str

abbrev pub failure {ℓ} : {T : Type ℓ} → System T → Str → List Str → Ran → Option Str
failure system bin argv (not_started e) = some (codes "running " ++ (bin ++ (codes ": " ++ e)))
failure system bin argv (ended out) =
    if out.success
    then none
    else some (
        bin
        ++ (codes " "
            ++ (system.debug_argv argv
                ++ (codes " failed (exit "
                    ++ (system.debug_code out.code ++ (codes "): " ++ trim out.stderr))))))

unfoldable pub run_iptables {ℓ} : {T : Type ℓ} → System T → Str → List Str → T → Option Str × T
unfolding trim
run_iptables system bin argv t =
    let (ran, after) = system.output bin argv t in (failure system bin argv ran, after)

abbrev pub then_run {ℓ} : {T : Type ℓ} → Option Str × T → (T → Option Str × T) → Option Str × T
then_run (none, t) rest = rest t
then_run (some e, t) rest = (some e, t)

-- The loop of `run`: it ends at the first failure, whose text is the result.
unfoldable pub run_rules {ℓ} : {T : Type ℓ} → System T → Str → List (List Str) → T → Option Str × T
unfolding run_iptables
run_rules system bin [] t = (none, t)
run_rules system bin (argv ∷ rest) t =
    then_run (run_iptables system bin argv t) (run_rules system bin rest)

unfoldable pub run {ℓ} : {T : Type ℓ} → System T → Args → T → Option Str × T
unfolding run_rules build_rules
run system args t =
    run_rules system args.iptables_bin (build_rules args.proxy_port args.sidecar_uid) t
