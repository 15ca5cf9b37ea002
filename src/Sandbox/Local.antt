-- ===== src/Sandbox/Local.antt =====
-- `_docker_local_execute` of sandbox/k8s_sandbox.py: the runner as a subprocess of the worker, for
-- development. The subprocess is an argument: what it ends with under an environment.
-- The row's error is a text; what it gets of an error of the result that is no text is a parameter.
pub mod Runs
mod Tests
use py_faa_s.Prelude.{
  ℕ, zero, suc, ◌-◌, ◌/◌, String, str_append, str_eq, Bool, true, false, Option, none, some, List,
  [], ◌∷◌, if◌then◌else◌,
}
use py_faa_s.Config.{Settings}
use py_faa_s.Models.{Json, null, bool, num, str, arr, obj, Fields, no_fields, field}
use py_faa_s.Sandbox.Results.{SandboxResult}
use py_faa_s.Sandbox.Logs.{parse_result_from_logs, format_logs}
use py_faa_s.Sandbox.Manifest.{JobSpec, Python, get_or}
use py_faa_s.Sandbox.Runner.Platform.{Environ, pop}

-- How `wait_for(proc.communicate(), timeout + 5)` ends; after a timeout the process is killed and its
-- output is read all the same.
pub data Subprocess : Type 0 where
  finished : ℕ → String → Subprocess
  killed : String → Subprocess

-- `env[key] = value`
unfoldable pub put : String → String → Environ → Environ
put key v [] = (key, v) ∷ []
put key v ((k, w) ∷ rest) =
    let kept = put key v rest in if str_eq k key then (k, v) ∷ rest else (k, w) ∷ kept

-- `env.update(items)`
unfoldable pub update : List (String × String) → Environ → Environ
unfolding put
update [] env = env
update ((key, v) ∷ items) env = update items (put key v env)

-- `value.get(key)`
abbrev pub get_field : String → Fields → Option Json
get_field key no_fields = none
get_field key (field k v rest) = if str_eq k key then some v else get_field key rest

module _ (python : Python) (settings : Settings) (other_error : Json → String) where
  abbrev pub job_variables : JobSpec → List (String × String)
  job_variables spec =
      ("SOPM_EXECUTION_ID", spec.execution_id)
      ∷ ("SOPM_ARTIFACT_PATH", get_or spec.artifact_path "")
      ∷ ("SOPM_ENTRYPOINT", spec.entrypoint)
      ∷ ("SOPM_PAYLOAD", python.json.dumps (get_or spec.payload (obj no_fields)))
      ∷ ("SOPM_TIMEOUT", python.str_int (get_or spec.timeout settings.sandbox_default_timeout))
      ∷ ("SOPM_WORK_DIR", str_append "/tmp/sopm-exec-" spec.execution_id)
      ∷ ("SOPM_VERSION_ID", get_or spec.version_id "unknown")
      ∷ ("SOPM_CACHE_DIR", str_append "/tmp/sopm-cache-" (get_or spec.version_id "unknown"))
      ∷ ("HOME", "/tmp")
      ∷ ("PIP_CACHE_DIR", "/tmp/pip-cache")
      ∷ ("PYTHONPYCACHEPREFIX", "/tmp/pycache")
      ∷ []

  -- Inline source is not cached.
  abbrev pub with_source : Option String → Environ → Environ
  with_source none env = env
  with_source (some code) env = pop "SOPM_CACHE_DIR" (put "SOPM_SOURCE_CODE" code env)

  unfoldable pub with_user_variables : Fields → Environ → Environ
  unfolding put
  with_user_variables no_fields env = env
  with_user_variables (field k v rest) env =
      with_user_variables rest (put k (python.str_json v) env)

  unfoldable pub local_environ : JobSpec → Environ → Environ
  unfolding update pop put with_user_variables
  local_environ spec env =
      with_user_variables (get_or spec.environment no_fields)
        (with_source spec.source_code (update (job_variables spec) env))

  -- `parsed_result.get("error") or "Execution failed"`
  abbrev pub error_or : Option Json → String
  error_or none = "Execution failed"
  error_or (some (str s)) = if str_eq s "" then "Execution failed" else s
  error_or (some null) = "Execution failed"
  error_or (some (bool false)) = "Execution failed"
  error_or (some v) = other_error v

  abbrev pub local_error : Option Json → String
  local_error (some (obj fields)) = error_or (get_field "error" fields)
  local_error _ = "Execution failed"

  abbrev pub failure : ℕ → Option Json → Option String
  failure zero parsed = none
  failure (suc code) parsed = some (local_error parsed)

  abbrev pub is_zero : ℕ → Bool
  is_zero zero = true
  is_zero (suc n) = false

  -- The result of a subprocess that took `ms` milliseconds.
  unfoldable pub local_result : ℕ → Subprocess → SandboxResult
  local_result ms (killed stdout) = record {
    success = false;
    result = none;
    error = some "Execution timed out";
    logs = format_logs stdout;
    duration_ms = some ms;
    timed_out = true;
    k8s_job_name = none;
  }
  local_result ms (finished returncode stdout) =
      let parsed = parse_result_from_logs python.json stdout in
      record {
        success = is_zero returncode;
        result = parsed;
        error = failure returncode parsed;
        logs = format_logs stdout;
        duration_ms = some ms;
        timed_out = false;
        k8s_job_name = none;
      }

  unfoldable pub docker_local_execute :
      (Environ → Subprocess) → ℕ → ℕ → Environ → JobSpec → SandboxResult
  unfolding local_environ local_result
  docker_local_execute run start end env spec =
      local_result (end / 1000 - start / 1000) (run (local_environ spec env))
