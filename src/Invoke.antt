-- ===== src/Invoke.antt =====
-- api/routers/invoke.py: running a function with an API key, and reading the result with it. The
-- queue and `str` on exceptions are parameters. Waiting for the result, which only reads, and the
-- listings are not modelled.
pub mod Visible
mod Tests
use py_faa_s.Prelude.{ℕ, ◌==◌, ◌&&◌, ◌||◌, opt_eq, String, Bool, Option, none, some, select}
use py_faa_s.Models.{
  Json, queued, Function, FunctionVersion, Execution, text, Error, http, Result, ok,
}
use py_faa_s.Session.{
  Session, Action, pure, lift, ◌>>=◌, query, scalar_one_or_none, or_raise, on_session,
}
use py_faa_s.Functions.{function_not_found, owned}
use py_faa_s.Routing.{choose_execution_version}
use py_faa_s.Executions.{Job, queue_execution, execution_not_found}
use py_faa_s.Keys.{ApiKeyPrincipal}

abbrev pub no_version : Error
no_version = http 422 (text "Function has no executable version")

unfoldable pub find_invokable :
    ℕ → ℕ → ApiKeyPrincipal → Action Session (Function × FunctionVersion)
find_invokable function_id draw principal = do
  rows ← query (λ db. select (owned function_id principal.user) db.functions)
  fn ← lift (or_raise function_not_found (scalar_one_or_none rows))
  chosen ← choose_execution_version fn none draw
  version ← lift (or_raise no_version (ok chosen))
  pure (fn, version)

abbrev pub invoked_execution :
    ℕ → ℕ → Json → ApiKeyPrincipal → Function → FunctionVersion → Execution
invoked_execution id now payload principal fn version = record {
  id = id;
  function_id = some fn.id;
  function_version_id = some version.id;
  triggered_by = some principal.user.id;
  api_key_id = some principal.key.id;
  execution_type = "function";
  schedule_id = none;
  status = queued;
  payload = payload;
  result = none;
  error_message = none;
  failure_kind = none;
  worker_id = none;
  k8s_job_name = none;
  queued_at = some now;
  started_at = none;
  completed_at = none;
  duration_ms = none;
  attempt_number = 1;
  timeout = version.timeout;
}

abbrev pub invoked_job : ℕ → Json → Function → FunctionVersion → Job
invoked_job id payload fn version = record {
  execution_id = id;
  function_id = fn.id;
  version_id = version.id;
  artifact_path = version.artifact_path;
  entrypoint = version.entrypoint;
  payload = payload;
  timeout = version.timeout;
  environment = version.environment;
  memory_mb = version.memory_mb;
  execution_type = some "function";
}

module _ (show : Error → String) {Q : Type 0} (enqueue : ℕ → Job → Action Q (Unit {0})) where
  unfoldable pub invoke_function :
      ℕ → ℕ → ℕ → ℕ → Json → ApiKeyPrincipal → Action (Session × Q) Execution
  invoke_function id now draw function_id payload principal = do
    (fn, version) ← on_session (find_invokable function_id draw principal)
    queue_execution show enqueue (invoked_execution id now payload principal fn version)
        (invoked_job id payload fn version)

-- `_api_key_execution_owner_clause`
abbrev pub is_visible_to : ApiKeyPrincipal → Execution → Bool
is_visible_to principal e =
    opt_eq e.api_key_id (some principal.key.id) || opt_eq e.triggered_by (some principal.user.id)

unfoldable pub get_invoked_execution : ℕ → ApiKeyPrincipal → Action Session Execution
get_invoked_execution execution_id principal = do
  rows ← query (λ db. select (λ e. e.id == execution_id && is_visible_to principal e) db.executions)
  lift (or_raise execution_not_found (scalar_one_or_none rows))
