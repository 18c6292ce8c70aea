-- ===== src/Startup/Tests.antt =====
-- A start that succeeds, one that does not, and the theorem at the first.
use condukt.Prelude.{
  ℕ, ◌≡◌, refl, ◌++◌, [], ◌∷◌, none, Str, str_eq, codes, Result, ok, err, if◌then◌else◌,
}
use condukt.Prelude.Decimal.{decimal}
use condukt.Policy.{Policy, Action, default_max_body_capture, default_decide_timeout_ms}
use condukt.Tls.Tests.{Cert, crates, law, issuer}
use condukt.Tls.Minting.{Issuer, load}
use condukt.Proxy.Tests.{
  open_policy, secure, secured, named, secured-Run, secure_identified, secured_accepts,
}
use condukt.Startup.{Args, default_args, Host, Handled, run_async}
use condukt.Startup.Order.{Started, run_async-Started}
use condukt.Startup.Served.{Authorised, run_async-Authorised}

abbrev policy : Policy
policy = record {
  rules = [];
  default = Action.deny;
  redact = [];
  max_body_capture = default_max_body_capture;
  decide_timeout_ms = default_decide_timeout_ms;
}

-- a listener and a connection are numbers; one `accept` fails
abbrev host : Host ℕ ℕ
host = record {
  read_to_string = λ file. ok (codes "{}");
  from_str = λ json. ok policy;
  start = λ address. ok 2;
  bind = λ address. ok 3;
  accepts = λ listener. ok 7 ∷ err (codes "reset") ∷ ok 8 ∷ [];
}

abbrev args : Args
args = default_args (codes "/c") (codes "/k")

-- The default address of the proxy has the port to which the rules redirect by default.
default_port : args.listen ≡ codes "0.0.0.0:" ++ decimal 15001
unfolding decimal
default_port = refl

no_policy_file :
    run_async crates (record host { read_to_string = λ file. err (codes "no such file") }) args
    ≡ err (codes "reading policy /etc/condukt/policy.json: no such file")
unfolding run_async
no_policy_file = refl

-- the files of the policy and of the certificate, but not the key's
abbrev no_key : Str → Result Str Str
no_key file = if str_eq file (codes "/k") then err (codes "denied") else ok (codes "{}")

no_key_file :
    run_async crates (record host { read_to_string = no_key }) args
    ≡ err (codes "reading CA file /k: denied")
unfolding run_async
no_key_file = refl

run_async-Started_example : Started crates host args (run_async crates host args)
run_async-Started_example = run_async-Started crates host args

-- a policy that allows, and the first of the connections that are accepted
abbrev open_host : Host ℕ ℕ
open_host = record host { from_str = λ json. ok open_policy }

abbrev handed : ℕ → Handled (Issuer Cert ℕ) ℕ ℕ
handed client = record {
  client = client;
  policy = open_policy;
  control = 2;
  ca = issuer;
  session_id = none;
}

open_start : run_async crates open_host args ≡ ok (handed 7 ∷ handed 8 ∷ [])
unfolding run_async load
open_start = refl

run_async-Authorised_example :
    Authorised crates law open_host args [] (secure 0) (secured.ca.phase 0) named
run_async-Authorised_example =
    run_async-Authorised crates law open_host args [] (handed 7) (handed 8 ∷ []) 0 open_start
      secured-Run secure_identified secured_accepts
