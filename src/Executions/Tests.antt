-- ===== src/Executions/Tests.antt =====
-- The executions router at work, on a queue that takes at most one job.
use py_faa_s.Prelude.{ℕ, String, List, none, [], ◌∷◌}
use py_faa_s.Models.{null, text, running, Error, raised, ok, err}
use py_faa_s.Session.{Database, Action, with_db, get_db, add_execution}
use py_faa_s.Session.Samples.{alice, db, execution}
use py_faa_s.Executions.{ExecutionTriggerRequest, Job, trigger_execution, cancel_execution}
use py_faa_s.Executions.Access.{Cancels, cancel_execution-Cancels}
use py_faa_s.Executions.Trigger.{Triggered, trigger_execution-Triggered}

abbrev put_job : ℕ → Job → Action (List (ℕ × Job)) (Unit {0})
put_job id job [] = (ok tt, (id, job) ∷ [])
put_job id job (j ∷ js) = (err (raised (text "OOM")), j ∷ js)

abbrev show : Error → String
show e = "OOM"

abbrev body : ExecutionTriggerRequest
body = record { version_id = none; payload = null; timeout = none }

trigger_execution-Triggered_example :
    Triggered show put_job 70 5 99 10 body alice db []
      (with_db (trigger_execution show put_job 70 5 99 10 body alice) (db, []))
trigger_execution-Triggered_example =
    trigger_execution-Triggered show put_job 70 5 99 10 body alice db [] tt

abbrev busy : Database
busy = add_execution (execution 70 running) db

cancel_execution-Cancels_example : Cancels 70 alice busy (get_db (cancel_execution 70 alice) busy)
cancel_execution-Cancels_example = cancel_execution-Cancels 70 alice busy
