-- ===== src/Session/Samples.antt =====
-- A small database for the tests: user 1 has function 10 with two versions.
use py_faa_s.Prelude.{ℕ, true, false, none, some, [], ◌∷◌}
use py_faa_s.Models.{
  User, Function, FunctionStatus, FunctionVersion, Execution, ExecutionStatus, null,
}
use py_faa_s.Session.{Database}

abbrev pub alice : User
alice = record {
  id = 1;
  username = "alice";
  email = "alice@example.com";
  hashed_password = "";
  is_active = true;
  is_superuser = false;
}

-- Function 10 of user 1 runs version 20, and version 21 for a tenth of the calls.
abbrev pub fn : Function
fn = record {
  id = 10;
  owner_id = 1;
  name = "resize";
  description = none;
  runtime = "python3.12";
  status = FunctionStatus.active;
  active_version_id = some 20;
  canary_version_id = some 21;
  canary_percent = 10;
  tags = null;
}

abbrev pub version : ℕ → ℕ → FunctionVersion
version id number = record {
  id = id;
  function_id = 10;
  version_number = number;
  entrypoint = "handler.handler";
  artifact_path = "a";
  artifact_hash = "";
  artifact_size = 1;
  environment = null;
  timeout = 300;
  memory_mb = 128;
  is_active = true;
  change_notes = none;
}

abbrev pub db : Database
db = record {
  users = alice ∷ [];
  api_keys = [];
  functions = fn ∷ [];
  versions = version 20 1 ∷ version 21 2 ∷ [];
  activations = [];
  executions = [];
  logs = [];
  schedules = [];
}

abbrev pub execution : ℕ → ExecutionStatus → Execution
execution id status = record {
  id = id;
  function_id = some 10;
  function_version_id = some 20;
  triggered_by = some 1;
  api_key_id = none;
  execution_type = "function";
  schedule_id = none;
  status = status;
  payload = null;
  result = none;
  error_message = none;
  failure_kind = none;
  worker_id = none;
  k8s_job_name = none;
  queued_at = some 0;
  started_at = none;
  completed_at = none;
  duration_ms = none;
  attempt_number = 1;
  timeout = 300;
}
