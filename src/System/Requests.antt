-- ===== src/System/Requests.antt =====
-- The requests that queue an execution, as steps of the system.
use py_faa_s.Prelude.{
  ℕ, String, str_append, ◌≡◌, refl, ap, ◌≢◌, some, List, [], ◌∷◌, ◌++◌, arith, All,
}
use py_faa_s.Prelude.Rows.{with_key, put-append_new}
use py_faa_s.Models.{queued, failed, Execution, User, Error, Result}
use py_faa_s.Session.{Database, Action, with_db, add_execution, save_execution}
use py_faa_s.Executions.{ExecutionTriggerRequest, Job, trigger_execution, new_execution, new_job}
use py_faa_s.Executions.Trigger.{
  Queued, accepted, refused, Triggered, nothing_to_run, started, trigger_execution-Triggered,
}
use py_faa_s.System.{Step, Steps, none_yet, then_one, queues, unqueues}
use mathlib.Core.Path.{subst}

new_alone :
    (e : Execution) (es : List Execution)
    → All (λ x. x.id ≢ e.id) es
    → with_key (λ (x : Execution). x.id) e.id (es ++ e ∷ []) ≡ e ∷ []
new_alone e [] new = ground arith
new_alone e (x ∷ es) new = ground (arith, new.0, new_alone e es new.1)

module _ (show : Error → String) {Q J : Type 0} (enqueue : ℕ → J → Action Q (Unit {0})) where
  pub Queued-Steps :
      (e : Execution) (job : J) (db : Database) (q : Q) (end : Result Execution × Database × Q)
      → All (λ x. x.id ≢ e.id) db.executions
      → e.status ≡ queued
      → Queued show enqueue e job db q end
      → Steps db end.1
  Queued-Steps e job db q end new waits (accepted q' sent same) =
      rw same (then_one none_yet (queues e waits new))
  Queued-Steps e job db q end new waits (refused exc q' sent same) =
      rw same
        (subst (λ x. Steps db x) last (then_one (then_one none_yet (queues e waits new)) fails))
    where
      row : Execution
      row = record e {
        status = failed;
        error_message = some (str_append "Failed to enqueue: " (show exc));
        failure_kind = some "queue";
      }

      fails : Step (add_execution e db) (save_execution row (add_execution e db))
      fails = unqueues e _ (new_alone e db.executions new) waits

      last : save_execution row (add_execution e db) ≡ add_execution row db
      last =
          ap (λ (es : List Execution). record db { executions = es })
            (put-append_new (λ (x : Execution). x.id) e row db.executions refl new)

module _ (show : Error → String) {Q : Type 0} (enqueue : ℕ → Job → Action Q (Unit {0})) where
  -- A request for an execution with a fresh id is a sequence of steps of the system, however it ends.
  trigger_execution-Steps :
      (id now draw function_id : ℕ) (body : ExecutionTriggerRequest) (u : User) (db : Database)
      (q : Q)
      → All (λ x. x.id ≢ id) db.executions
      → Steps db (with_db (trigger_execution show enqueue id now draw function_id body u) (db, q)).1
  trigger_execution-Steps id now draw function_id body u db q new =
      ended (with_db (trigger_execution show enqueue id now draw function_id body u) (db, q))
        (trigger_execution-Triggered show enqueue id now draw function_id body u db q new)
    where
      ended :
          (end : Result Execution × Database × Q)
          → Triggered show enqueue id now draw function_id body u db q end
          → Steps db end.1
      ended end (nothing_to_run exc h same) = rw same none_yet
      ended end (started fn version h mine for queued_so) =
          Queued-Steps show enqueue (new_execution id now body u fn version)
            (new_job (new_execution id now body u fn version) body fn version) db q end new refl
            queued_so
