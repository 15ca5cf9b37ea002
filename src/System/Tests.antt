-- ===== src/System/Tests.antt =====
-- A worker claims an execution, its owner cancels it, and then the worker reports success.
use py_faa_s.Prelude.{◌≡◌, refl, true, false, none, some, [], ◌∷◌}
use py_faa_s.Models.{queued, cancelled, Execution}
use py_faa_s.Session.{Database, get_db, get_db_context, add_execution}
use py_faa_s.Session.Samples.{alice, db, execution}
use py_faa_s.Worker.{SandboxResult, claim, finish, select_execution}
use py_faa_s.Executions.{cancel_execution}
use py_faa_s.System.{Steps, none_yet, then_one, claims, cancels, finishes}
use py_faa_s.System.Progress.{Advances}
use py_faa_s.System.Forward.{Steps-Advances, Steps-at_terminal}

abbrev success : SandboxResult
success = record {
  success = true;
  result = none;
  error = none;
  logs = [];
  duration_ms = some 4;
  timed_out = false;
  k8s_job_name = none;
}

abbrev waiting : Database
waiting = add_execution (execution 70 queued) db

abbrev claimed : Database
claimed = (get_db_context (claim "w" 5 70) waiting).1

abbrev withdrawn : Database
withdrawn = (get_db (cancel_execution 70 alice) claimed).1

abbrev reported : Database
reported = (get_db_context (finish success 4 9 70) withdrawn).1

runs : Unit {0}
unfolding claim finish cancel_execution get_db get_db_context
runs = tt

after_cancel : Steps withdrawn reported
after_cancel = then_one none_yet (finishes success 4 9 70)

Steps-Advances_example : Advances waiting.executions reported.executions
Steps-Advances_example = Steps-Advances waiting reported (
    then_one (then_one (then_one none_yet (claims "w" 5 70)) (cancels 70 alice))
      (finishes success 4 9 70))

abbrev withdrawn_row : Execution
withdrawn_row = record (execution 70 cancelled) { started_at = some 5; worker_id = some "w" }

Steps-at_terminal_example :
    (e' : Execution) × (select_execution 70 reported ≡ e' ∷ []) × (e'.status ≡ cancelled)
unfolding runs
Steps-at_terminal_example =
    Steps-at_terminal withdrawn reported 70 withdrawn_row after_cancel refl refl
