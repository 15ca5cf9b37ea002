-- ===== src/System.antt =====
-- The sessions of workers, users, the scheduler and the stale recovery on one database, in any order.
-- A step is one commit: what the database does with overlapping transactions is not modelled.
pub mod Progress
pub mod Forward
mod Requests
mod Tests
use py_faa_s.Prelude.{ℕ, String, ◌≡◌, ◌≢◌, All, some, [], ◌∷◌}
use py_faa_s.Config.{Settings}
use py_faa_s.Models.{queued, failed, User, Execution}
use py_faa_s.Session.{
  Database, get_db, get_db_context, with_db, Action, add_execution, save_execution,
}
use py_faa_s.Worker.{SandboxResult, claim, finish, recover, select_execution}
use py_faa_s.Executions.{cancel_execution}
use py_faa_s.Functions.Delete.{delete_function}

pub data Step (db : Database) : Database → Type 1 where
  -- `trigger_execution` and the scheduler commit a queued execution with a fresh id.
  queues :
      (e : Execution)
      → e.status ≡ queued
      → All (λ x. x.id ≢ e.id) db.executions
      → Step db (add_execution e db)
  -- The commit after the queue did not take the job. It sets the columns whatever they are; the step is
  -- that of a row which is still queued, as a refused job leaves it unless a user cancels it meanwhile.
  unqueues :
      (e : Execution) (message : String)
      → select_execution e.id db ≡ e ∷ []
      → e.status ≡ queued
      → Step db (
          save_execution
            (record e {
              status = failed;
              error_message = some message;
              failure_kind = some "queue";
            })
            db)
  -- The first session of a worker's job.
  claims :
      (worker_id : String) (now id : ℕ) → Step db (get_db_context (claim worker_id now id) db).1
  -- The second session, with any result: also of a job that is no longer running.
  finishes :
      (r : SandboxResult) (elapsed now id : ℕ)
      → Step db (get_db_context (finish r elapsed now id) db).1
  recovers : (settings : Settings) (now : ℕ) → Step db (get_db_context (recover settings now) db).1
  cancels : (id : ℕ) (u : User) → Step db (get_db (cancel_execution id u) db).1
  -- A function is deleted, and its executions are detached.
  deletes :
      {O : Type 0} (delete_artifact : String → Action O (Unit {0})) (o : O) (id : ℕ) (u : User)
      → Step db (with_db (delete_function delete_artifact id u) (db, o)).1

pub data Steps (db : Database) : Database → Type 1 where
  none_yet : Steps db db
  then_one : {mid last : Database} → Steps db mid → Step mid last → Steps db last
