-- ===== src/Sandbox/Kubernetes.antt =====
-- `KubernetesSandbox` of sandbox/k8s_sandbox.py on a cluster. The loop of `_wait_for_job` runs on
-- fuel: `none` means that the fuel ran out, and Kubernetes/Waiting shows that it does not.
-- Loading the client's configuration and the warnings of the log are left out.
pub mod Waiting
pub mod Settled
mod Tests
use py_faa_s.Prelude.{
  ℕ, zero, suc, ◌+◌, ◌-◌, ◌*◌, ◌/◌, ltb, ◌==◌, ◌&&◌, String, str_append, str_eq, Bool, true, false,
  Option, none, some, List, [], ◌∷◌, if◌then◌else◌, any,
}
use py_faa_s.Config.{Settings}
use py_faa_s.Prelude.Lines.{text_take}
use py_faa_s.Models.{Json, Error, api_exception, Result, ok, err}
use py_faa_s.Session.{Action, pure, ◌>>=◌, caught}
use py_faa_s.Sandbox.Results.{LogEntry, SandboxResult}
use py_faa_s.Sandbox.Logs.{parse_result_from_logs, format_logs}
use py_faa_s.Sandbox.Manifest.{JobSpec, Python, get_or, job_manifest}
use py_faa_s.Sandbox.Cluster.{Condition, JobStatus, Terminated, ContainerStatus, Pod, Cluster}

-- A number that may be missing, as a condition.
abbrev pub truthy : Option ℕ → Bool
truthy none = false
truthy (some zero) = false
truthy (some (suc n)) = true

abbrev pub failed_with : String → List LogEntry → SandboxResult
failed_with error logs = record {
  success = false;
  result = none;
  error = some error;
  logs = logs;
  duration_ms = none;
  timed_out = false;
  k8s_job_name = none;
}

abbrev pub timed_out_with : String → List LogEntry → SandboxResult
timed_out_with error logs = record (failed_with error logs) { timed_out = true }

abbrev pub completed_with : Option Json → List LogEntry → SandboxResult
completed_with result logs = record {
  success = true;
  result = result;
  error = none;
  logs = logs;
  duration_ms = none;
  timed_out = false;
  k8s_job_name = none;
}

abbrev pub is_deadline_exceeded : Condition → Bool
is_deadline_exceeded c = str_eq c.kind "Failed" && is_reason c.reason
  where
    is_reason : Option String → Bool
    is_reason none = false
    is_reason (some r) = str_eq r "DeadlineExceeded"

-- `terminated.reason`, if there is one and it is not empty.
abbrev pub reason_of : Option Terminated → Option String
reason_of none = none
reason_of (some t) = elim t.reason [ none ↦ none | some r ↦ if str_eq r "" then none else some r ]

abbrev pub termination_reason : ContainerStatus → Option String
termination_reason status = elim status.state [ none ↦ none | some st ↦ reason_of st.terminated ]

abbrev pub failure_text : String → String
failure_text reason =
    if str_eq reason "OOMKilled"
    then "Execution exceeded memory limit"
    else str_append "Execution failed: " reason

-- The loop over the containers of a pod.
unfoldable pub container_failure : List ContainerStatus → Option String
container_failure [] = none
container_failure (status ∷ statuses) =
    let rest = container_failure statuses in
    elim (termination_reason status) [ none ↦ rest | some reason ↦ some (failure_text reason) ]

-- The loop over the pods of a job.
unfoldable pub pod_failure : List Pod → Option String
unfolding container_failure
pod_failure [] = none
pod_failure (pod ∷ pods) =
    let rest = pod_failure pods in
    elim (container_failure (get_or pod.container_statuses [])) [
      | none ↦ rest
      | some error ↦ some error
    ]

-- An error of the pods' list is no reason.
abbrev pub pods_error : Result (List Pod) → String
pods_error (err _) = "Execution failed"
pods_error (ok pods) = get_or (pod_failure pods) "Execution failed"

abbrev pub poll_interval : ℕ
poll_interval = 250000

abbrev pub runtime_class_missing : String → Error → Error
runtime_class_missing runtime_class (api_exception status reason) =
    if status == 404
    then api_exception 404 (
        str_append (str_append "RuntimeClass '" runtime_class)
          "' is not registered; install gVisor/runsc first")
    else api_exception status reason
runtime_class_missing runtime_class exc = exc

abbrev pub job_name_of : JobSpec → String → String
job_name_of spec suffix =
    str_append (str_append (str_append "sopm-exec-" (text_take 8 spec.execution_id)) "-")
      (text_take 6 suffix)

module _ (cluster : Cluster) (python : Python) (settings : Settings) where
  open cluster use {
    State, now, sleep, read_runtime_class, create_namespaced_job, read_namespaced_job,
    list_namespaced_pod, read_namespaced_pod_log, delete_namespaced_job,
  }

  abbrev pub namespace : String
  namespace = settings.sandbox_namespace

  -- What `_ensure_runtime_class` makes of the answer, with the flag `_runtime_class_checked`.
  abbrev pub checked_class : Result (Unit {0}) × State → Result (Unit {0}) × Bool × State
  checked_class (ok _, s) = (ok tt, true, s)
  checked_class (err exc, s) =
      (err (runtime_class_missing settings.sandbox_runtime_class exc), false, s)

  unfoldable pub ensure_runtime_class : Bool → State → Result (Unit {0}) × Bool × State
  ensure_runtime_class true s = (ok tt, true, s)
  ensure_runtime_class false s =
      if str_eq settings.sandbox_runtime_class ""
      then (err (api_exception 400 "SANDBOX_RUNTIME_CLASS is required"), false, s)
      else checked_class (read_runtime_class settings.sandbox_runtime_class s)

  unfoldable pub create_job : String → JobSpec → Action State (Unit {0})
  unfolding job_manifest
  create_job job_name spec =
      create_namespaced_job namespace (job_manifest python settings job_name spec)

  unfoldable pub get_pods_for_job : String → Action State (List Pod)
  get_pods_for_job job_name = list_namespaced_pod namespace (str_append "job-name=" job_name)

  abbrev pub logs_of : Result (Option String) → String
  logs_of (ok logs) = get_or logs ""
  logs_of (err _) = ""

  abbrev pub first_log : List Pod → Action State (Option String)
  first_log [] = pure none
  first_log (pod ∷ pods) = read_namespaced_pod_log pod.name namespace

  -- `_get_pod_logs`: an exception is an empty log.
  unfoldable pub get_pod_logs : String → Action State String
  unfolding get_pods_for_job
  get_pod_logs job_name = do
    logs ← caught (get_pods_for_job job_name >>= first_log)
    pure (logs_of logs)

  unfoldable pub classify_failed_job : String → JobStatus → String → Action State SandboxResult
  unfolding get_pods_for_job pod_failure
  classify_failed_job job_name job logs =
      if any is_deadline_exceeded (get_or job.conditions [])
      then pure (timed_out_with "Execution timed out" (format_logs logs))
      else (caught (get_pods_for_job job_name) >>= λ pods.
          pure (failed_with (pods_error pods) (format_logs logs)))

  -- The body of the loop of `_wait_for_job`: the result of a job that has ended.
  unfoldable pub polled : String → JobStatus → Action State (Option SandboxResult)
  unfolding get_pod_logs classify_failed_job
  polled job_name job =
      if truthy job.succeeded
      then (get_pod_logs job_name >>= λ logs.
          pure (some (completed_with (parse_result_from_logs python.json logs) (format_logs logs))))
      else if truthy job.failed
      then (get_pod_logs job_name >>= λ logs.
          classify_failed_job job_name job logs >>= λ result. pure (some result))
      else pure none

  unfoldable pub poll : String → Action State (Option SandboxResult)
  unfolding polled
  poll job_name = do job ← read_namespaced_job job_name namespace; polled job_name job

  abbrev pub Ended : Type 0
  Ended = Option (Result SandboxResult × State)

  abbrev pub after_poll : (State → Ended) → Result (Option SandboxResult) × State → Ended
  after_poll next (err exc, s) = some (err exc, s)
  after_poll next (ok (some result), s) = some (ok result, s)
  after_poll next (ok none, s) = next (sleep poll_interval s)

  abbrev pub wait_timeout : SandboxResult
  wait_timeout = timed_out_with "Worker-side timeout waiting for Kubernetes Job" []

  unfoldable pub wait_loop : ℕ → String → ℕ → State → Ended
  wait_loop zero job_name deadline s = none
  wait_loop (suc fuel) job_name deadline s =
      let again = after_poll (wait_loop fuel job_name deadline) (poll job_name s) in
      if ltb (now s) deadline then again else some (ok wait_timeout, s)

  unfoldable pub wait_for_job : String → ℕ → State → Ended
  unfolding wait_loop
  wait_for_job job_name timeout s =
      wait_loop (suc ((timeout + 10) * 4)) job_name (now s + (timeout + 10) * 1000000) s

  -- The first two calls of the `try` of `execute`.
  abbrev pub created :
      String → JobSpec → Result (Unit {0}) × Bool × State → Result (Unit {0}) × Bool × State
  created job_name spec (err exc, checked, s) = (err exc, checked, s)
  created job_name spec (ok _, checked, s) =
      let (r, s') = create_job job_name spec s in (r, checked, s')

  abbrev pub Answer : Type 0
  Answer = Option (Result SandboxResult × Bool × State)

  abbrev pub with_flag : Bool → Ended → Answer
  with_flag checked none = none
  with_flag checked (some (r, s)) = some (r, checked, s)

  abbrev pub awaited : String → JobSpec → Result (Unit {0}) × Bool × State → Answer
  awaited job_name spec (err exc, checked, s) = some (err exc, checked, s)
  awaited job_name spec (ok _, checked, s) =
      with_flag checked
        (wait_for_job job_name (get_or spec.timeout settings.sandbox_default_timeout) s)

  -- The `try` of `execute` up to its result.
  unfoldable pub run_job : Bool → String → JobSpec → State → Answer
  unfolding ensure_runtime_class create_job wait_for_job
  run_job checked job_name spec s =
      awaited job_name spec (created job_name spec (ensure_runtime_class checked s))

  abbrev pub elapsed_ms : ℕ → State → ℕ
  elapsed_ms start s = now s / 1000 - start / 1000

  -- The rest of the `try`, and `except ApiException`.
  abbrev pub settled : String → ℕ → Result SandboxResult → State → Result SandboxResult
  settled job_name start (ok result) s =
      ok (record result { k8s_job_name = some job_name; duration_ms = some (elapsed_ms start s) })
  settled job_name start (err (api_exception status reason)) s =
      ok (record (failed_with (str_append "Kubernetes API error: " reason) []) {
        k8s_job_name = some job_name;
        duration_ms = some (elapsed_ms start s);
      })
  settled job_name start (err exc) s = err exc

  abbrev pub delete_job : String → Action State (Unit {0})
  delete_job job_name = delete_namespaced_job job_name namespace

  -- `finally`: an exception of the cleanup is dropped.
  abbrev pub cleaned_up : String → ℕ → Answer → Answer
  cleaned_up job_name start none = none
  cleaned_up job_name start (some (r, checked, s)) =
      some (settled job_name start r s, checked, (delete_job job_name s).1)

  -- `execute` with the sandbox enabled; `suffix` is the hexadecimal text of a fresh
  -- UUID, and the Boolean is `_runtime_class_checked`, which is also returned.
  unfoldable pub execute : Bool → String → JobSpec → State → Answer
  unfolding run_job
  execute checked suffix spec s =
      cleaned_up (job_name_of spec suffix) (now s)
        (run_job checked (job_name_of spec suffix) spec s)
