-- ===== src/Sandbox/Kubernetes/Tests.antt =====
-- The sandbox at work on a cluster of one pod, whose job succeeds after half a second.
use py_faa_s.Prelude.{
  ℕ, ◌+◌, ◌≤◌, ltb, str_append, str_eq, ◌≡◌, refl, Bool, false, none, some, [], ◌∷◌, arith,
  if◌then◌else◌,
}
use py_faa_s.Config.{Settings, default_settings}
use py_faa_s.Models.{api_exception, Result, ok, err, failed, null}
use py_faa_s.Worker.{failure_kind, new_status}
use py_faa_s.Sandbox.Results.{SandboxResult}
use py_faa_s.Sandbox.Manifest.{JobSpec, Python, runner_container}
use py_faa_s.Sandbox.Manifest.Memory.{runner_container-memory}
use py_faa_s.Sandbox.Cluster.{Cluster, Pod}
use py_faa_s.Sandbox.Kubernetes.{execute, delete_job, job_name_of, wait_timeout}
use py_faa_s.Sandbox.Kubernetes.Settled.{Cleaned, refused, execute-Settles, execute-fails_closed}

abbrev python : Python
python = record {
  str_int = λ n. "256";
  int = λ t. some 256;
  str_json = λ v. "";
  json = record { dumps = λ v. "null"; loads = λ t. some null };
}

abbrev pod : Pod
pod = record { name = "pod-1"; container_statuses = none }

-- The state is the clock.
abbrev one_pod : Cluster
one_pod = record {
  State = ℕ;
  now = λ s. s;
  sleep = λ n s. s + n;
  read_runtime_class =
      λ name s. (if str_eq name "gvisor" then ok tt else err (api_exception 404 "Not Found"), s);
  create_namespaced_job = λ namespace job s. (ok tt, s);
  read_namespaced_job = λ name namespace s. (
    ok (record {
      succeeded = if ltb s 500000 then none else some 1;
      failed = none;
      conditions = none;
    }),
    s,
  );
  list_namespaced_pod = λ namespace selector s. (ok (pod ∷ []), s);
  read_namespaced_pod_log = λ name namespace s. (ok (some "hello\nSOPM_RESULT:null\n"), s);
  delete_namespaced_job = λ name namespace s. (err (api_exception 500 "late"), s + 1);
  now-sleep = λ n s. omega arith;
  now-read_namespaced_job = λ name namespace s. omega arith;
}

abbrev spec : JobSpec
spec = record {
  execution_id = "0123456789";
  function_id = "f";
  version_id = none;
  artifact_path = none;
  entrypoint = "handler.handler";
  payload = none;
  timeout = some 5;
  environment = none;
  memory_mb = some 256;
  source_code = none;
}

execute-Settles_example :
    (end : Result SandboxResult × Bool × ℕ) × (execute one_pod python default_settings false
        "abcdef01" spec 0
      ≡ some end)
    × Cleaned one_pod python default_settings (job_name_of spec "abcdef01") end
execute-Settles_example = execute-Settles one_pod python default_settings false "abcdef01" spec 0

abbrev other_class : Settings
other_class = record default_settings { sandbox_runtime_class = "kata" }

execute-fails_closed_example :
    (r : SandboxResult) × (execute one_pod python other_class false "abcdef01" spec 0
      ≡ some
          (ok r, false, (delete_job one_pod python other_class (job_name_of spec "abcdef01") 0).1))
    × (new_status r ≡ failed)
    × (failure_kind r ≡ some "infra")
execute-fails_closed_example =
    execute-fails_closed one_pod python other_class "abcdef01" spec
      (refused 404 "Not Found" refl refl)

small_job_memory :
    let resources = (runner_container python default_settings spec).resources in
    (resources.limit_memory ≡ str_append (python.str_int 256) "Mi")
    × ((m : ℕ) × (resources.request_memory ≡ str_append (python.str_int m) "Mi")
        × (m ≤ 256)
        × (m ≤ 128))
small_job_memory = runner_container-memory python default_settings spec 255 refl refl

-- The sandbox's own timeout is a fault of the infrastructure, and is recorded as the handler's.
wait_timeout_kind : failure_kind (wait_timeout one_pod python default_settings) ≡ some "handler"
unfolding failure_kind
wait_timeout_kind = refl
