-- ===== src/Ephemeral/Tests.antt =====
-- Raw code with key 80 of user 1, on a Redis that is one counter and takes every job.
use py_faa_s.Prelude.{ℕ, suc, String, ◌≤◌, none, arith}
use py_faa_s.Config.{default_settings}
use py_faa_s.Models.{null, ApiKey, Error, ok}
use py_faa_s.Session.{with_db}
use py_faa_s.Session.Samples.{alice, db}
use py_faa_s.Keys.{ApiKeyPrincipal}
use py_faa_s.Ephemeral.{Redis, EphemeralExecutionRequest, active_count, execute_ephemeral}
use py_faa_s.Ephemeral.Limits.{Runs, execute_ephemeral-Runs, execute_ephemeral-active_count}

abbrev counter : Redis
counter = record {
  State = ℕ;
  incr = λ key_id minute n. (ok (suc n), suc n);
  expire = λ key_id minute seconds n. (ok tt, n);
  enqueue = λ id job n. (ok tt, n);
}

abbrev shown : ℕ → String
shown n = "n"

abbrev show : Error → String
show e = "error"

abbrev key : ApiKey
key = record {
  id = 80;
  owner_id = 1;
  name = "one";
  key_hash = "h";
  key_prefix = "sopm_a";
  revoked_at = none;
  last_used_at = none;
}

abbrev principal : ApiKeyPrincipal
principal = record { key = key; user = alice }

abbrev request : EphemeralExecutionRequest
request = record {
  code = "def handler(event): return event";
  entrypoint = "handler.handler";
  event = null;
  timeout = 30;
  memory_mb = 128;
}

execute_ephemeral-Runs_example :
    Runs shown show counter default_settings 3 principal 70 5 request db 0 (
      with_db
        (execute_ephemeral shown show counter default_settings 70 5 3 request principal)
        (db, 0))
execute_ephemeral-Runs_example =
    execute_ephemeral-Runs shown show counter default_settings 3 principal 70 5 request db 0 tt

execute_ephemeral-active_count_example :
    active_count 80
      (with_db
        (execute_ephemeral shown show counter default_settings 70 5 3 request principal)
        (db, 0)).1
    ≤ 3
execute_ephemeral-active_count_example =
    execute_ephemeral-active_count shown show counter default_settings 3 principal 70 5 request db 0
      tt (omega arith)
