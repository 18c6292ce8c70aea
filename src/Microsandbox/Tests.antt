-- ===== src/Microsandbox/Tests.antt =====
-- A session over a counter of the calls that reach its sandbox, and the theorems at it.
use condukt.Prelude.{
  ℕ, suc, ◌≡◌, refl, true, false, List, [], ◌∷◌, none, some, Str, codes, All, to_ascii_lowercase,
  ok, err,
}
use condukt.Microsandbox.{
  Backend, Session, Command, failed, sandbox_fs, exec_timeout, exec, shutdown,
}
use condukt.Microsandbox.Interleaved.{
  uses, stops, takes, clones, Turn, use_turn, close_turn, start, turn, run,
}
use condukt.Microsandbox.Interleaved.Order.{IsOrdered, run-IsOrdered}
use condukt.Microsandbox.Closing.{
  Operation, execs, reads, shuts_down, drops, IsRefusal, perform_all, shutdown_is_final,
}

-- the sandbox is a name, and every call of it fails
abbrev backend : Backend Str ℕ
backend = record {
  stop_and_wait = λ h n. suc n;
  exec_with = λ h c n. (err exec_timeout, suc n);
  read = λ h path n. (err (sandbox_fs (codes "Not Found")), suc n);
  mkdir = λ h path n. (ok tt, suc n);
  write = λ h path bytes n. (ok tt, suc n);
  builds_placeholder = true;
  parent = λ path. none;
  to_lowercase = to_ascii_lowercase;
}

abbrev session : Session Str
session = record {
  sandbox = some (codes "vm");
  sandbox_poisoned = false;
  runtime_poisoned = false;
  detached = false;
}

abbrev command : Command
command = record {
  shell = codes "sh";
  command = codes "ls";
  cwd = codes "/";
  env = [];
  timeout_ms = none;
}

times_out : exec backend session command 0 ≡ (failed (codes "timeout"), 1)
unfolding exec
times_out = refl

stops_once : (shutdown backend session 0).1 ≡ 1
unfolding shutdown
stops_once = refl

abbrev operations : List Operation
operations = execs command ∷ shuts_down ∷ reads (codes "/f") ∷ drops ∷ []

shutdown_is_final_example :
    All (IsRefusal backend) (perform_all backend operations (shutdown backend session 0)).0
    × ((perform_all backend operations (shutdown backend session 0)).2
        ≡ (shutdown backend session 0).1)
shutdown_is_final_example = shutdown_is_final backend operations session 0

-- A command clones the sandbox, a shutdown takes and stops it, and the command comes too late; a
-- second command is refused.
abbrev turns : List Turn
turns = use_turn 0 ∷ close_turn 0 ∷ close_turn 0 ∷ close_turn 1 ∷ use_turn 1 ∷ use_turn 0 ∷ []

late_use :
    (run turns (start session)).log
    ≡ uses 0 (codes "vm") ∷ stops 0 (codes "vm") ∷ takes 0 (codes "vm") ∷ clones 0 (codes "vm") ∷ []
unfolding run turn
late_use = refl

run-IsOrdered_example : IsOrdered (run turns (start session)).log
run-IsOrdered_example = run-IsOrdered turns session
