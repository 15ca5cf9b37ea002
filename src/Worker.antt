-- ===== src/Worker.antt =====
-- worker/worker.py: the two database sessions of `_process_job` around the sandbox, and the
-- recovery of executions whose worker did not report. Times are microseconds.
-- What the sandbox answers, the clock and what other sessions do meanwhile are arguments.
pub mod Rows
pub mod Process
pub mod Recovery
pub mod Poll
mod Tests
use py_faa_s.Prelude.{
  contains_text, ℕ, zero, not, suc, ◌+◌, ◌-◌, ◌*◌, ◌/◌, String, str_append, ◌==◌, ltb, is_some,
  ◌&&◌, ◌||◌, Bool, true, false, Option, none, some, List, [], ◌∷◌, ◌++◌, if◌then◌else◌, select,
  length,
}
pub use py_faa_s.Sandbox.Results.{LogEntry, SandboxResult}
use py_faa_s.Config.{Settings}
use py_faa_s.Models.{
  Json, ExecutionStatus, running, completed, failed, timed_out, cancelled, status_eq, Execution,
  ExecutionLog, Result, ok, err, transition_to,
}
use py_faa_s.Session.{
  Database, Session, Action, pure, lift, ◌>>=◌, ◌>>◌, query, write, scalar_one_or_none,
  get_db_context, save_execution, add_log,
}

-- `entry.get(key, default)`
abbrev pub get_or : Option String → String → String
get_or none default = default
get_or (some v) default = v

-- How `wait_for(sandbox.execute(job), …)` ends.
pub data Outcome : Type 0 where
  returned : SandboxResult → Outcome
  wait_timed_out : Outcome
  raised : String → Outcome

-- A text as a condition: all but the empty one pass.
abbrev pub truthy_text : String → Bool
truthy_text String.[] = false
truthy_text _ = true

abbrev pub select_execution : ℕ → Database → List Execution
select_execution id db = select (λ x. x.id == id) db.executions

-- The row of an execution that starts.
unfoldable pub start_row : String → ℕ → Execution → Result Execution
unfolding transition_to
start_row worker_id now e = elim (transition_to running e) [
  | ok e' ↦ ok (record e' { started_at = some now; worker_id = some worker_id })
  | err x ↦ err x
]

unfoldable pub start_found : String → ℕ → Option Execution → Action Session Bool
unfolding start_row
start_found worker_id now none = pure false
start_found worker_id now (some e) =
    if status_eq e.status cancelled then pure false else elim (start_row worker_id now e) [
      | ok e' ↦ write (save_execution e') >> pure true
      | err _ ↦ pure false
    ]

-- The first session of `_process_job`: whether the execution is to run.
unfoldable pub claim : String → ℕ → ℕ → Action Session Bool
unfolding start_found
claim worker_id now execution_id = do
  rows ← query (select_execution execution_id)
  execution ← lift (scalar_one_or_none rows)
  start_found worker_id now execution

-- `sandbox_result` after the `try`; `elapsed` is the time since the job started, in milliseconds.
unfoldable pub sandbox_result : ℕ → Outcome → SandboxResult
sandbox_result elapsed (returned r) = r
sandbox_result elapsed wait_timed_out = record {
  success = false;
  result = none;
  error = some "Execution timed out (worker timeout)";
  logs = [];
  duration_ms = some elapsed;
  timed_out = false;
  k8s_job_name = none;
}
sandbox_result elapsed (raised exc) = record {
  success = false;
  result = none;
  error = some (str_append "Sandbox error: " exc);
  logs = [];
  duration_ms = some elapsed;
  timed_out = false;
  k8s_job_name = none;
}

-- `sandbox_result.duration_ms or elapsed`
abbrev pub or_elapsed : Option ℕ → ℕ → ℕ
or_elapsed none elapsed = elapsed
or_elapsed (some zero) elapsed = elapsed
or_elapsed (some (suc n)) elapsed = suc n

unfoldable pub new_status : SandboxResult → ExecutionStatus
new_status r = if r.timed_out then timed_out else if r.success then completed else failed

unfoldable pub failure_kind : SandboxResult → Option String
failure_kind r = if r.success then none else elim r.error [
  | none ↦ some "handler"
  | some text ↦
      if truthy_text text
        && (contains_text "Sandbox error" text
            || contains_text "Kubernetes API" text
            || contains_text "worker timeout" text)
      then some "infra"
      else some "handler"
]

-- `try: execution.transition_to(s) except ValueError: pass`
abbrev pub try_transition : ExecutionStatus → Execution → Execution
try_transition s e = elim (transition_to s e) [ ok e' ↦ e' | err _ ↦ e ]

-- The row of an execution after its result is written back.
unfoldable pub finish_row : SandboxResult → ℕ → ℕ → Execution → Execution
unfolding new_status failure_kind transition_to
finish_row r elapsed now e = record (try_transition (new_status r) e) {
  completed_at = some now;
  duration_ms = some (or_elapsed r.duration_ms elapsed);
  result = r.result;
  error_message = r.error;
  failure_kind = failure_kind r;
  k8s_job_name = r.k8s_job_name;
}

-- The rows of `enumerate(sandbox_result.logs)`, from number `seq` on.
unfoldable pub log_rows : ℕ → ℕ → List LogEntry → List ExecutionLog
log_rows execution_id seq [] = []
log_rows execution_id seq (entry ∷ entries) =
    record {
      execution_id = execution_id;
      level = get_or entry.level "INFO";
      stream = get_or entry.stream "stdout";
      message = get_or entry.message "";
      sequence = seq;
    }
    ∷ log_rows execution_id (suc seq) entries

abbrev pub add_logs : List ExecutionLog → Database → Database
add_logs rows db = record db { logs = db.logs ++ rows }

unfoldable pub finish_found : SandboxResult → ℕ → ℕ → Option Execution → Action Session (Unit {0})
unfolding finish_row log_rows
finish_found r elapsed now none = pure tt
finish_found r elapsed now (some e) =
    write (save_execution (finish_row r elapsed now e)) >> write (add_logs (log_rows e.id 0 r.logs))

-- The second session of `_process_job`.
unfoldable pub finish : SandboxResult → ℕ → ℕ → ℕ → Action Session (Unit {0})
unfolding finish_found
finish r elapsed now execution_id = do
  rows ← query (select_execution execution_id)
  execution ← lift (scalar_one_or_none rows)
  finish_found r elapsed now execution

-- What one run of `_process_job` meets: the times of its sessions, how the sandbox ends, how long
-- it took, and what other sessions do to the database while it runs.
pub record Run : Type 0 where
  pub started_at : ℕ
  pub completed_at : ℕ
  pub elapsed_ms : ℕ
  pub outcome : Outcome
  pub meanwhile : Database → Database

abbrev pub second_session : Run → ℕ → Result Bool × Database → Result (Unit {0}) × Database
second_session run id (err x, db) = (err x, db)
second_session run id (ok false, db) = (ok tt, db)
second_session run id (ok true, db) =
    get_db_context
      (finish (sandbox_result run.elapsed_ms run.outcome) run.elapsed_ms run.completed_at id)
      (run.meanwhile db)

-- `_process_job`: an exception of a session passes on.
unfoldable pub process_job : String → Run → ℕ → Database → Result (Unit {0}) × Database
unfolding claim finish sandbox_result get_db_context
process_job worker_id run id db =
    second_session run id (get_db_context (claim worker_id run.started_at id) db)

-- The test that skips a running execution whose deadline has not passed; `timeout` is in seconds.
abbrev pub stale_after : Settings → Execution → ℕ
stale_after settings e =
    ((if ltb e.timeout 1 then 1 else e.timeout) * 2 + settings.worker_stale_timeout_grace) * 1000000

-- The condition of the query, and the deadline test of the loop.
abbrev pub is_running : Execution → Bool
is_running e = status_eq e.status running && is_some e.started_at

abbrev pub deadline_passed : Settings → ℕ → Execution → ℕ → Bool
deadline_passed settings now e started = not (ltb now (started + stale_after settings e))

abbrev pub stale_row : ℕ → ℕ → Execution → Execution
stale_row now started e = record e {
  completed_at = some now;
  failure_kind = some "infra";
  error_message = some "Worker did not report completion before stale recovery deadline";
  duration_ms = some ((now - started) / 1000);
}

-- One round of the loop on a row: its new content if it is recovered, `none` if it is passed over.
unfoldable pub recover_row : Settings → ℕ → Execution → Option Execution
unfolding transition_to
recover_row settings now e =
    if is_running e
    then elim e.started_at [
      | none ↦ none
      | some started ↦
          if deadline_passed settings now e started
          then elim (transition_to failed e) [
            | ok e' ↦ some (stale_row now started e')
            | err _ ↦ none
          ]
          else none
    ]
    else none

abbrev pub stale_log : ℕ → ExecutionLog
stale_log id = record {
  execution_id = id;
  level = "ERROR";
  stream = "system";
  message = "Stale execution recovered: worker did not report completion";
  sequence = 0;
}

abbrev pub Recovered : Type 0
Recovered = List Execution × List ExecutionLog × ℕ

abbrev pub add_recovered : Execution → Option Execution → Recovered → Recovered
add_recovered e none (rows, logs, n) = (e ∷ rows, logs, n)
add_recovered e (some e') (rows, logs, n) = (e' ∷ rows, stale_log e.id ∷ logs, suc n)

-- The loop: the table after it, the log rows that it adds and how many it recovered.
unfoldable pub recover_rows : Settings → ℕ → List Execution → Recovered
unfolding recover_row
recover_rows settings now [] = ([], [], 0)
recover_rows settings now (e ∷ es) =
    add_recovered e (recover_row settings now e) (recover_rows settings now es)

-- `_recover_stale_running_executions`
unfoldable pub recover : Settings → ℕ → Action Session ℕ
unfolding recover_rows
recover settings now s =
    let (rows, new_logs, n) = recover_rows settings now s.live.executions in
    (ok n, record s { live = record s.live { executions = rows; logs = s.live.logs ++ new_logs } })
