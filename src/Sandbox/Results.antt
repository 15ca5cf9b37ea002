-- ===== src/Sandbox/Results.antt =====
-- What a sandbox answers.
use py_faa_s.Prelude.{ℕ, Bool, String, Option, List}
use py_faa_s.Models.{Json}

-- An entry of the logs, a `dict[str, str]` with at most these keys.
pub record LogEntry : Type 0 where
  pub level : Option String
  pub stream : Option String
  pub message : Option String

pub record SandboxResult : Type 0 where
  pub success : Bool
  pub result : Option Json
  pub error : Option String
  pub logs : List LogEntry
  pub duration_ms : Option ℕ
  pub timed_out : Bool
  pub k8s_job_name : Option String
