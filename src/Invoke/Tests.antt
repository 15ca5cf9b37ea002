-- ===== src/Invoke/Tests.antt =====
-- Function 10 invoked with key 80 of user 1, on a queue that takes every job.
use py_faa_s.Prelude.{ℕ, String, List, ◌≡◌, refl, none, [], ◌∷◌}
use py_faa_s.Models.{null, ApiKey, Execution, Error, ok}
use py_faa_s.Session.{Action, get_db, with_db, add_execution}
use py_faa_s.Session.Samples.{alice, db, fn, version}
use py_faa_s.Routing.{choose_execution_version}
use py_faa_s.Executions.{Job, queue_execution}
use py_faa_s.Keys.{ApiKeyPrincipal}
use py_faa_s.Invoke.{
  find_invokable, invoke_function, invoked_execution, invoked_job, get_invoked_execution,
}
use py_faa_s.Invoke.Visible.{get_invoked_execution-invoke_function}

abbrev put_job : ℕ → Job → Action (List (ℕ × Job)) (Unit {0})
put_job id job js = (ok tt, (id, job) ∷ js)

abbrev show : Error → String
show e = "error"

abbrev key : ApiKey
key = record {
  id = 80;
  owner_id = 1;
  name = "one";
  key_hash = "h";
  key_prefix = "sopm_a";
  revoked_at = none;
  last_used_at = none;
}

abbrev principal : ApiKeyPrincipal
principal = record { key = key; user = alice }

abbrev invoked : Execution
invoked = invoked_execution 70 5 null principal fn (version 20 1)

runs : Unit {0}
unfolding invoke_function find_invokable choose_execution_version queue_execution
runs = tt

-- A draw of 99 is not in the canary's share.
invokes :
    with_db (invoke_function show put_job 70 5 99 10 null principal) (db, [])
    ≡ (ok invoked, add_execution invoked db, (70, invoked_job 70 null fn (version 20 1)) ∷ [])
unfolding runs
invokes = refl

get_invoked_execution-invoke_function_example :
    get_db (get_invoked_execution 70 principal) (add_execution invoked db)
    ≡ (ok invoked, add_execution invoked db)
get_invoked_execution-invoke_function_example =
    get_invoked_execution-invoke_function show put_job 70 5 99 10 null principal db [] invoked
      (add_execution invoked db) ((70, invoked_job 70 null fn (version 20 1)) ∷ []) tt invokes
