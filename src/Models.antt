-- ===== src/Models.antt =====
-- shared/db/models.py: the enumerations, the transition table and the rows of the tables.
-- Ids (UUID), times (microseconds) and sizes are numbers. The timestamps of `TimestampMixin` are
-- kept by the database server and are not modelled; a relationship is the foreign key that it reads.
mod Values
mod Errors
pub mod Lifecycle
mod Tests
pub use Values.*
pub use Errors.*
use py_faa_s.Prelude.{ℕ, String, Bool, true, false, ◌||◌, Option, List, [], ◌∷◌, if◌then◌else◌}

pub data FunctionStatus : Type 0 where
  active inactive deprecated : FunctionStatus

pub data ScheduleStatus : Type 0 where
  active paused deleted : ScheduleStatus

abbrev pub status_eq : ExecutionStatus → ExecutionStatus → Bool
status_eq pending pending = true
status_eq queued queued = true
status_eq running running = true
status_eq completed completed = true
status_eq failed failed = true
status_eq timed_out timed_out = true
status_eq cancelled cancelled = true
status_eq _ _ = false

-- `status in {…}`, `status.in_([…])`
abbrev pub status_mem : ExecutionStatus → List ExecutionStatus → Bool
status_mem s [] = false
status_mem s (x ∷ xs) = status_eq s x || status_mem s xs

unfoldable pub valid_transitions : ExecutionStatus → List ExecutionStatus
valid_transitions pending = queued ∷ cancelled ∷ []
valid_transitions queued = running ∷ cancelled ∷ failed ∷ []
valid_transitions running = completed ∷ failed ∷ timed_out ∷ cancelled ∷ []
valid_transitions completed = []
valid_transitions failed = []
valid_transitions timed_out = []
valid_transitions cancelled = []

unfoldable pub validate_transition : ExecutionStatus → ExecutionStatus → Result (Unit {0})
unfolding valid_transitions
validate_transition current next_state =
    if status_mem next_state (valid_transitions current)
    then ok tt
    else err (value_error (invalid_transition current next_state))

pub record User : Type 0 where
  pub id : ℕ
  pub username : String
  pub email : String
  pub hashed_password : String
  pub is_active : Bool
  pub is_superuser : Bool

pub record ApiKey : Type 0 where
  pub id : ℕ
  pub owner_id : ℕ
  pub name : String
  pub key_hash : String
  pub key_prefix : String
  pub revoked_at : Option ℕ
  pub last_used_at : Option ℕ

pub record Function : Type 0 where
  pub id : ℕ
  pub owner_id : ℕ
  pub name : String
  pub description : Option String
  pub runtime : String
  pub status : FunctionStatus
  pub active_version_id : Option ℕ
  pub canary_version_id : Option ℕ
  pub canary_percent : ℕ
  pub tags : Json

pub record VersionActivation : Type 0 where
  pub function_id : ℕ
  pub actor_id : Option ℕ
  pub previous_version_id : Option ℕ
  pub activated_version_id : Option ℕ
  pub canary_version_id : Option ℕ
  pub canary_percent : ℕ
  pub action : String

pub record FunctionVersion : Type 0 where
  pub id : ℕ
  pub function_id : ℕ
  pub version_number : ℕ
  pub entrypoint : String
  pub artifact_path : String
  pub artifact_hash : String
  pub artifact_size : ℕ
  pub environment : Json
  pub timeout : ℕ
  pub memory_mb : ℕ
  pub is_active : Bool
  pub change_notes : Option String

pub record Execution : Type 0 where
  pub id : ℕ
  pub function_id : Option ℕ
  pub function_version_id : Option ℕ
  pub triggered_by : Option ℕ
  pub api_key_id : Option ℕ
  pub execution_type : String
  pub schedule_id : Option ℕ
  pub status : ExecutionStatus
  pub payload : Json
  pub result : Option Json
  pub error_message : Option String
  pub failure_kind : Option String
  pub worker_id : Option String
  pub k8s_job_name : Option String
  pub queued_at : Option ℕ
  pub started_at : Option ℕ
  pub completed_at : Option ℕ
  pub duration_ms : Option ℕ
  pub attempt_number : ℕ
  pub timeout : ℕ

pub record ExecutionLog : Type 0 where
  pub execution_id : ℕ
  pub level : String
  pub stream : String
  pub message : String
  pub sequence : ℕ

pub record Schedule : Type 0 where
  pub id : ℕ
  pub function_id : ℕ
  pub owner_id : ℕ
  pub name : String
  pub cron_expression : String
  pub payload : Json
  pub status : ScheduleStatus
  pub next_run_at : Option ℕ
  pub last_run_at : Option ℕ
  pub last_execution_id : Option ℕ
  pub missed_runs : ℕ

-- `Execution.transition_to`: the execution with its new status, or the error of the table.
unfoldable pub transition_to : ExecutionStatus → Execution → Result Execution
unfolding validate_transition
transition_to new_status e = do
  validate_transition e.status new_status
  ok (record e { status = new_status })
