-- ===== src/Startup.antt =====
-- native/condukt_egress/src/main.rs and native/condukt_egress/src/proxy/mod.rs: the two modes, and
-- the start of the proxy. Files, listeners, the crates rcgen and rustls and the parsers of the
-- command line and of JSON are parameters.
pub mod Order
pub mod Served
mod Tests
use condukt.Prelude.{
  ℕ, Bool, true, false, List, [], ◌∷◌, ◌++◌, Option, none, some, Str, codes, ok, err, ◌>>=◌,
  map_err,
}
use condukt.Policy.{Policy}
use condukt.Netfilter
use condukt.Conn.Outcome.{Outcome}
use condukt.Tls.Minting.{Crates, Issuer, to_string, load}

-- the options of the `proxy` subcommand
pub record Args : Type 0 where
  pub listen : Str
  pub control_listen : Str
  pub policy_file : Str
  pub ca_cert_path : Str
  pub ca_key_path : Str
  pub session_id : Option Str

-- The options where only the required ones are given.
abbrev pub default_args : Str → Str → Args
default_args ca_cert_path ca_key_path = record {
  listen = codes "0.0.0.0:15001";
  control_listen = codes "0.0.0.0:15002";
  policy_file = codes "/etc/condukt/policy.json";
  ca_cert_path = ca_cert_path;
  ca_key_path = ca_key_path;
  session_id = none;
}

-- What the outside answers, with `L` for an open listener and `S` for a connection. An error is its
-- text.
pub record Host (L S : Type 0) : Type 0 where
  pub read_to_string : Str → Outcome Str
  pub from_str : Str → Outcome Policy
  pub start : Str → Outcome L
  pub bind : Str → Outcome L
  pub accepts : L → List (Outcome S)

-- a call of `conn::handle` with its arguments, on the channel `L` and with the CA `C`
pub record Handled (C L S : Type 0) : Type 0 where
  pub client : S
  pub policy : Policy
  pub control : L
  pub ca : C
  pub session_id : Option Str

-- `map_err(|e| format!("{what} policy {file}: {e}"))`
abbrev pub policy_error {ℓ} : {A : Type ℓ} → Str → Str → Outcome A → Outcome A
policy_error what file (ok a) = ok a
policy_error what file (err e) = err (what ++ (codes " policy " ++ (file ++ (codes ": " ++ e))))

module _ {C L S : Type 0} where
  -- The accept loop, for the connections that come: a failed `accept` is passed over.
  abbrev pub accept_loop : Policy → L → C → Option Str → List (Outcome S) → List (Handled C L S)
  accept_loop policy control ca session_id [] = []
  accept_loop policy control ca session_id (err e ∷ rest) =
      accept_loop policy control ca session_id rest
  accept_loop policy control ca session_id (ok client ∷ rest) =
      record {
        client = client;
        policy = policy;
        control = control;
        ca = ca;
        session_id = session_id;
      }
      ∷ accept_loop policy control ca session_id rest

module _ {C K O W D I L S : Type 0} (b : Crates C K O W D I) where
  -- `ok` when the proxy has reached its accept loop
  unfoldable pub run_async : Host L S → Args → Outcome (List (Handled (Issuer C K) L S))
  unfolding to_string load
  run_async host args = do
    policy_json ←
        policy_error (codes "reading") args.policy_file (host.read_to_string args.policy_file)
    policy ← policy_error (codes "parsing") args.policy_file (host.from_str policy_json)
    ca ← map_err to_string (load b host.read_to_string args.ca_cert_path args.ca_key_path)
    control ← host.start args.control_listen
    listener ← host.bind args.listen
    ok (accept_loop policy control ca args.session_id (host.accepts listener))

  -- `run`, which builds its runtime first
  unfoldable pub run :
      Outcome (Unit {0}) → Host L S → Args → Outcome (List (Handled (Issuer C K) L S))
  unfolding run_async
  run runtime host args = do _ ← runtime; run_async host args

pub data ExitCode : Type 0 where
  success : ExitCode
  failure : ExitCode

-- `main`, from the result of the mode
abbrev pub exit_code {ℓ} : {A : Type ℓ} → Outcome A → ExitCode
exit_code (ok a) = success
exit_code (err e) = failure

-- the result of `netfilter::run`, whose error is its text
abbrev pub outcome : Option Str → Outcome (Unit {0})
outcome none = ok tt
outcome (some e) = err e

-- the subcommand with its options
pub data Mode : Type 0 where
  netfilter_setup : Netfilter.Args → Mode
  proxy : Args → Mode

-- `main`, from the parsed command line, over the state `T` of the system's tables. Of a proxy that
-- serves, which does not end, the code is that of success.
unfoldable pub main :
    {C K O W D I L S T : Type 0}
    → Netfilter.System T
    → Crates C K O W D I
    → Outcome (Unit {0})
    → Host L S
    → Mode
    → T
    → ExitCode × T
unfolding run Netfilter.run
main system b runtime host (netfilter_setup args) t =
    let (r, after) = Netfilter.run system args t in (exit_code (outcome r), after)
main system b runtime host (proxy args) t = (exit_code (run b runtime host args), t)
