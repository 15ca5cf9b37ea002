-- ===== src/Functions/Delete.antt =====
-- `delete_function` of api/routers/functions.py. The object store is a parameter: a state and the
-- call that removes an artifact, which may raise.
use py_faa_s.Prelude.{
  ℕ, ltb, ◌==◌, ◌&&◌, opt_eq, str_append, String, Bool, true, false, none, some, List, [], ◌∷◌, map,
  any, select, count_where, update_where, delete_where,
}
use py_faa_s.Models.{
  User, Function, FunctionVersion, Execution, ExecutionStatus, pending, queued, running, text,
  Error, http, Result, ok, err,
}
use py_faa_s.Session.{
  Database, Session, Action, pure, raise_if, ◌>>=◌, ◌>>◌, query, write, save_function, on_session,
  on_service,
}
use py_faa_s.Functions.{get_function_or_404, without_canary}

abbrev pub is_unfinished : ExecutionStatus → Bool
is_unfinished pending = true
is_unfinished queued = true
is_unfinished running = true
is_unfinished _ = false

abbrev pub active_executions : ℕ → Database → ℕ
active_executions function_id db =
    count_where (λ e. opt_eq e.function_id (some function_id) && is_unfinished e.status)
      db.executions

abbrev pub has_active_executions : Error
has_active_executions =
    http 409 (
      text
        "Function has active executions. Wait for them to finish or cancel them before deleting.")

abbrev pub versions_of : ℕ → Database → List FunctionVersion
versions_of function_id db = select (λ v. v.function_id == function_id) db.versions

abbrev pub detached : User → Execution → Execution
detached current_user e = record e {
  function_id = none;
  function_version_id = none;
  schedule_id = none;
  triggered_by = some current_user.id;
}

abbrev pub detach_function : ℕ → User → Database → Database
detach_function function_id current_user db = record db {
  executions =
      update_where (λ e. opt_eq e.function_id (some function_id)) (detached current_user)
        db.executions;
}

-- `function_version_id IN version_ids`
abbrev pub runs_version : List ℕ → Execution → Bool
runs_version version_ids e = any (λ id. opt_eq e.function_version_id (some id)) version_ids

abbrev pub without_version : Execution → Execution
without_version e = record e { function_version_id = none }

abbrev pub detach_versions : List ℕ → Database → Database
detach_versions version_ids db = record db {
  executions = update_where (runs_version version_ids) without_version db.executions;
}

-- The function without active version and canary.
abbrev pub unrouted : Function → Function
unrouted fn = record (without_canary fn) { active_version_id = none }

-- The four `DELETE` statements.
abbrev pub delete_rows : ℕ → Database → Database
delete_rows function_id db = record db {
  schedules = delete_where (λ c. c.function_id == function_id) db.schedules;
  activations = delete_where (λ a. a.function_id == function_id) db.activations;
  versions = delete_where (λ v. v.function_id == function_id) db.versions;
  functions = delete_where (λ f. f.id == function_id) db.functions;
}

abbrev pub artifact_error : String → Error
artifact_error path = http 502 (text (str_append "Failed to delete function artifact: " path))

-- The checks before anything is written.
unfoldable pub find_deletable : ℕ → User → Action Session (Function × List FunctionVersion)
find_deletable function_id current_user = do
  fn ← get_function_or_404 function_id current_user
  active_count ← query (active_executions fn.id)
  raise_if (ltb 0 active_count) has_active_executions
  versions ← query (versions_of fn.id)
  pure (fn, versions)

-- What the statements do to the database.
abbrev pub without_function : Function → List FunctionVersion → User → Database → Database
without_function fn versions current_user db = delete_rows fn.id (
    save_function (unrouted fn) (
      detach_versions (map (λ (v : FunctionVersion). v.id) versions)
        (detach_function fn.id current_user db)))

module _ {O : Type 0} (delete_artifact : String → Action O (Unit {0})) where
  abbrev pub or_artifact_error :
      String → Result (Unit {0}) × O → (O → Result (Unit {0}) × O) → Result (Unit {0}) × O
  or_artifact_error path (ok _, o) rest = rest o
  or_artifact_error path (err _, o) rest = (err (artifact_error path), o)

  -- The loop over the artifacts: it stops at the first that the store does not remove.
  unfoldable pub delete_artifacts : List String → Action O (Unit {0})
  delete_artifacts [] o = (ok tt, o)
  delete_artifacts (path ∷ paths) o =
      or_artifact_error path (delete_artifact path o) (delete_artifacts paths)

  unfoldable pub delete_function : ℕ → User → Action (Session × O) (Unit {0})
  delete_function function_id current_user = do
    (fn, versions) ← on_session (find_deletable function_id current_user)
    on_session (write (without_function fn versions current_user))
    on_service (delete_artifacts (map (λ (v : FunctionVersion). v.artifact_path) versions))
