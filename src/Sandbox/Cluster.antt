-- ===== src/Sandbox/Cluster.antt =====
-- The Kubernetes cluster as the sandbox uses it: the calls of the `kubernetes` client, the monotonic
-- clock and `asyncio.sleep`, as a parameter. A call may raise, `ApiException` or another exception.
-- Times are in microseconds.
use py_faa_s.Prelude.{ℕ, ◌+◌, ◌≤◌, String, Option, List}
use py_faa_s.Session.{Action}
use py_faa_s.Sandbox.Manifest.{Job}

pub record Condition : Type 0 where
  pub kind : String
  pub reason : Option String

-- `job.status`
pub record JobStatus : Type 0 where
  pub succeeded : Option ℕ
  pub failed : Option ℕ
  pub conditions : Option (List Condition)

pub record Terminated : Type 0 where
  pub reason : Option String

pub record ContainerState : Type 0 where
  pub terminated : Option Terminated

pub record ContainerStatus : Type 0 where
  pub state : Option ContainerState

pub record Pod : Type 0 where
  pub name : String
  pub container_statuses : Option (List ContainerStatus)

pub record Cluster : Type 1 where
  pub State : Type 0
  pub now : State → ℕ
  pub sleep : ℕ → State → State
  pub read_runtime_class : String → Action State (Unit {0})
  pub create_namespaced_job : String → Job → Action State (Unit {0})
  pub read_namespaced_job : String → String → Action State JobStatus
  pub list_namespaced_pod : String → String → Action State (List Pod)
  pub read_namespaced_pod_log : String → String → Action State (Option String)
  pub delete_namespaced_job : String → String → Action State (Unit {0})
  -- The clock does not run backwards, and a sleep lasts at least its time.
  pub now-sleep : (n : ℕ) (s : State) → now s + n ≤ now (sleep n s)
  pub now-read_namespaced_job :
      (name namespace : String) (s : State) → now s ≤ now (read_namespaced_job name namespace s).1
