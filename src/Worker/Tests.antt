-- ===== src/Worker/Tests.antt =====
-- The worker at work.
use py_faa_s.Prelude.{◌≡◌, refl, ◌≢◌, inl, inr, true, false, none, some, List, [], ◌∷◌, All}
use py_faa_s.Config.{default_settings}
use py_faa_s.Models.{
  ExecutionStatus, queued, running, completed, failed, cancelled, Execution, null, ok,
}
use py_faa_s.Models.Lifecycle.{is_terminal}
use py_faa_s.Session.{Database, get_db_context}
use py_faa_s.Worker.{
  SandboxResult, Run, wait_timed_out, select_execution, process_job, finish_row, sandbox_result,
  recover, Recovered,
}
use py_faa_s.Worker.Process.{started_row, process_job_closes, process_job_skips}
use py_faa_s.Worker.Recovery.{Sweeps, recover-Sweeps}

abbrev execution : ExecutionStatus → Execution
execution s = record {
  id = 7;
  function_id = some 10;
  function_version_id = some 20;
  triggered_by = some 1;
  api_key_id = none;
  execution_type = "function";
  schedule_id = none;
  status = s;
  payload = null;
  result = none;
  error_message = none;
  failure_kind = none;
  worker_id = none;
  k8s_job_name = none;
  queued_at = some 100;
  started_at = none;
  completed_at = none;
  duration_ms = none;
  attempt_number = 1;
  timeout = 300;
}

abbrev table : List Execution → Database
table rows = record {
  users = [];
  api_keys = [];
  functions = [];
  versions = [];
  activations = [];
  executions = rows;
  logs = [];
  schedules = [];
}

-- The sandbox does not answer in time, and nobody else touches the database.
abbrev slow : Run
slow = record {
  started_at = 200;
  completed_at = 900;
  elapsed_ms = 700;
  outcome = wait_timed_out;
  meanwhile = λ db. db;
}

abbrev job_done : SandboxResult
job_done = record {
  success = true;
  result = some null;
  error = none;
  logs = [];
  duration_ms = some 5;
  timed_out = false;
  k8s_job_name = none;
}

process_job_closes_example :
    let (r, after) = process_job "w-0" slow 7 (table (execution queued ∷ [])) in
    (r ≡ ok tt)
    × (select_execution 7 after
        ≡ finish_row
            (sandbox_result 700 wait_timed_out)
            700
            900
            (started_row "w-0" 200 (execution queued))
          ∷ [])
    × All (λ x. is_terminal x.status ≡ true) (select_execution 7 after)
process_job_closes_example =
    process_job_closes "w-0" slow 7 (table (execution queued ∷ [])) (execution queued)
      (started_row "w-0" 200 (execution queued)) refl refl refl (inl refl)

completed_ne_queued : completed ≢ queued
completed_ne_queued e = cc

process_job_skips_example :
    process_job "w-0" slow 7 (table (execution completed ∷ []))
    ≡ (ok tt, table (execution completed ∷ []))
process_job_skips_example =
    process_job_skips "w-0" slow 7 (table (execution completed ∷ [])) (execution completed)
      (inr (refl, completed_ne_queued))

-- A wait that ends by the worker's own timeout is recorded as a failure, not as `TIMED_OUT`.
worker_timeout_fails :
    (finish_row (sandbox_result 700 wait_timed_out) 700 900 (execution running)).status ≡ failed
unfolding finish_row sandbox_result
worker_timeout_fails = refl

-- The result of an execution that was cancelled while it ran is written over it all the same.
cancelled_gets_result :
    finish_row job_done 5 900 (execution cancelled) ≡ record (execution cancelled) {
      completed_at = some 900;
      duration_ms = some 5;
      result = some null;
    }
unfolding finish_row
cancelled_gets_result = refl

abbrev lost : Execution
lost = record (execution running) { started_at = some 1000000 }

recover-Sweeps_example :
    (swept : Recovered) × Sweeps default_settings 700000000 (lost ∷ []) swept
    × (get_db_context (recover default_settings 700000000) (table (lost ∷ []))
        ≡ (ok swept.2, record (table (lost ∷ [])) { executions = swept.0; logs = swept.1 }))
recover-Sweeps_example = recover-Sweeps default_settings 700000000 (table (lost ∷ []))
