-- ===== src/Executions.antt =====
-- api/routers/executions.py: triggering, reading and cancelling executions. The queue is a
-- parameter: a state and the call that puts a job on it, which may raise. Fresh ids, the clock and
-- the random draw are arguments.
pub mod Access
pub mod Trigger
mod Tests
use py_faa_s.Prelude.{
  ℕ, zero, suc, ◌==◌, ◌&&◌, ◌||◌, String, str_append, Bool, Option, none, some, select, any, opt_eq,
}
use py_faa_s.Models.{
  Json, queued, failed, cancelled, User, Function, FunctionVersion, Execution, Error, http,
  value_error, text, Result, ok, err, transition_to,
}
use py_faa_s.Session.{
  Database, Session, Action, pure, lift, ◌>>=◌, ◌>>◌, query, write, commit, scalar_one_or_none,
  or_raise, save_execution, add_execution, on_session, on_service, caught,
}
use py_faa_s.Functions.{function_not_found, owned}
use py_faa_s.Routing.{choose_execution_version}

pub record ExecutionTriggerRequest : Type 0 where
  pub version_id : Option ℕ
  pub payload : Json
  pub timeout : Option ℕ

-- The payload of a job on the queue; the scheduler's jobs have no `execution_type`.
pub record Job : Type 0 where
  pub execution_id : ℕ
  pub function_id : ℕ
  pub version_id : ℕ
  pub artifact_path : String
  pub entrypoint : String
  pub payload : Json
  pub timeout : ℕ
  pub environment : Json
  pub memory_mb : ℕ
  pub execution_type : Option String

-- `body.timeout or version.timeout`
abbrev pub timeout_or : Option ℕ → ℕ → ℕ
timeout_or none default = default
timeout_or (some zero) default = default
timeout_or (some (suc n)) default = suc n

abbrev pub no_executable_version : Error
no_executable_version =
    http 422 (text "Function has no executable version; upload or activate a version first")

-- The first half of `trigger_execution`: what is to run.
unfoldable pub find_executable :
    ℕ → Option ℕ → ℕ → User → Action Session (Function × FunctionVersion)
find_executable function_id version_id draw current_user = do
  rows ← query (λ db. select (owned function_id current_user) db.functions)
  fn ← lift (or_raise function_not_found (scalar_one_or_none rows))
  chosen ← choose_execution_version fn version_id draw
  version ← lift (or_raise no_executable_version (ok chosen))
  pure (fn, version)

-- The row of a new execution, with the defaults of its columns.
abbrev pub new_execution :
    ℕ → ℕ → ExecutionTriggerRequest → User → Function → FunctionVersion → Execution
new_execution id now body current_user fn version = record {
  id = id;
  function_id = some fn.id;
  function_version_id = some version.id;
  triggered_by = some current_user.id;
  api_key_id = none;
  execution_type = "function";
  schedule_id = none;
  status = queued;
  payload = body.payload;
  result = none;
  error_message = none;
  failure_kind = none;
  worker_id = none;
  k8s_job_name = none;
  queued_at = some now;
  started_at = none;
  completed_at = none;
  duration_ms = none;
  attempt_number = 1;
  timeout = timeout_or body.timeout version.timeout;
}

abbrev pub new_job : Execution → ExecutionTriggerRequest → Function → FunctionVersion → Job
new_job e body fn version = record {
  execution_id = e.id;
  function_id = fn.id;
  version_id = version.id;
  artifact_path = version.artifact_path;
  entrypoint = version.entrypoint;
  payload = body.payload;
  timeout = timeout_or body.timeout version.timeout;
  environment = version.environment;
  memory_mb = version.memory_mb;
  execution_type = some "function";
}

-- `show` is Python's `str` on an exception.
module _ (show : Error → String) where
  -- The row of an execution that could not be put on the queue.
  abbrev pub enqueue_failed : Error → Execution → Execution
  enqueue_failed exc e = record e {
    status = failed;
    error_message = some (str_append "Failed to enqueue: " (show exc));
    failure_kind = some "queue";
  }

  unfoldable pub after_enqueue : Execution → Result (Unit {0}) → Action Session Execution
  after_enqueue e (ok _) = pure e
  after_enqueue e (err exc) =
      write (save_execution (enqueue_failed exc e)) >> commit >> pure (enqueue_failed exc e)

module _ (show : Error → String) {Q J : Type 0} (enqueue : ℕ → J → Action Q (Unit {0})) where
  -- The second half of `trigger_execution`: the row is committed before its job is on the queue. It
  -- is the same for the jobs of the other routers.
  unfoldable pub queue_execution : Execution → J → Action (Session × Q) Execution
  unfolding after_enqueue
  queue_execution e job = do
    on_session (write (add_execution e) >> commit)
    sent ← caught (on_service (enqueue e.id job))
    on_session (after_enqueue show e sent)

module _ (show : Error → String) {Q : Type 0} (enqueue : ℕ → Job → Action Q (Unit {0})) where
  unfoldable pub trigger_execution :
      ℕ → ℕ → ℕ → ℕ → ExecutionTriggerRequest → User → Action (Session × Q) Execution
  trigger_execution id now draw function_id body current_user = do
    (fn, version) ← on_session (find_executable function_id body.version_id draw current_user)
    queue_execution show enqueue (new_execution id now body current_user fn version)
        (new_job (new_execution id now body current_user fn version) body fn version)

-- The outer join with `_execution_owner_clause`: ids of functions are unique.
abbrev pub is_visible : Database → User → Execution → Bool
is_visible db current_user e =
    any (λ f. opt_eq e.function_id (some f.id) && f.owner_id == current_user.id) db.functions
    || opt_eq e.triggered_by (some current_user.id)

abbrev pub execution_not_found : Error
execution_not_found = http 404 (text "Execution not found")

unfoldable pub get_execution : ℕ → User → Action Session Execution
get_execution execution_id current_user = do
  rows ←
      query (λ db. select (λ e. e.id == execution_id && is_visible db current_user e) db.executions)
  lift (or_raise execution_not_found (scalar_one_or_none rows))

-- `except ValueError as exc: raise HTTPException(409, str(exc))`
abbrev pub as_conflict : Result Execution → Result Execution
as_conflict (ok e) = ok e
as_conflict (err (value_error d)) = err (http 409 d)
as_conflict (err x) = err x

unfoldable pub cancel_execution : ℕ → User → Action Session (Unit {0})
unfolding get_execution
cancel_execution execution_id current_user = do
  execution ← get_execution execution_id current_user
  cancelled_execution ← lift (as_conflict (transition_to cancelled execution))
  write (save_execution cancelled_execution)
