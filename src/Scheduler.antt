-- ===== src/Scheduler.antt =====
-- scheduler/scheduler.py: which schedules are due, and what firing one does. Parameters are
-- `croniter`, which may raise, Python's `str` on exceptions, and the queue. The polling loop and the
-- lock around a tick are not modelled. Times are microseconds.
mod Tests
pub mod Firing
pub mod Outcomes
use py_faa_s.Prelude.{
  ℕ, ltb, leb, ◌==◌, ◌&&◌, ◌*◌, ◌-◌, ◌<◌, ◌≡◌, not, String, Bool, true, false, Option, none, some,
  List, [], ◌∷◌, select, if◌then◌else◌,
}
use py_faa_s.Config.{Settings}
use py_faa_s.Models.{
  ScheduleStatus, queued, failed, Function, FunctionVersion, Execution, Schedule, Error, Result, ok,
  err,
}
use py_faa_s.Session.{
  Database, Session, Action, pure, lift, ◌>>=◌, ◌>>◌, query, write, commit, scalar_one_or_none,
  save_execution, save_schedule, add_execution, on_session, on_service, caught, with_db,
}
use py_faa_s.Routing.{choose_execution_version}
use py_faa_s.Executions.{Job}

-- `croniter(expression, base).get_next(datetime)`: the next time is after the base.
pub record Cron : Type 0 where
  pub get_next : String → ℕ → Result ℕ
  pub later : (expression : String) (base t : ℕ) → get_next expression base ≡ ok t → base < t

abbrev pub is_active_schedule : ScheduleStatus → Bool
is_active_schedule ScheduleStatus.active = true
is_active_schedule _ = false

-- `next_run_at <= now`, false for a missing time.
abbrev pub is_reached : Option ℕ → ℕ → Bool
is_reached none now = false
is_reached (some t) now = leb t now

abbrev pub is_due : ℕ → Schedule → Bool
is_due now c = is_active_schedule c.status && is_reached c.next_run_at now

-- The query of `_process_due_schedules`, in the order of the table; the statement asks for no order.
abbrev pub due_schedules : ℕ → Database → List Schedule
due_schedules now db = select (is_due now) db.schedules

abbrev pub select_schedule : ℕ → Database → List Schedule
select_schedule id db = select (λ c. c.id == id) db.schedules

-- The run is too late: the gap is over the limit, in seconds.
abbrev pub is_missed : Settings → ℕ → ℕ → Bool
is_missed settings now next_run_at =
    ltb next_run_at now
    && ltb (settings.scheduler_poll_interval * settings.scheduler_max_missed_runs * 1000000)
        (now - next_run_at)

abbrev pub scheduled_execution : ℕ → ℕ → Schedule → Function → FunctionVersion → Execution
scheduled_execution id now fresh fn version = record {
  id = id;
  function_id = some fn.id;
  function_version_id = some version.id;
  triggered_by = none;
  api_key_id = none;
  execution_type = "function";
  schedule_id = some fresh.id;
  status = queued;
  payload = fresh.payload;
  result = none;
  error_message = none;
  failure_kind = none;
  worker_id = none;
  k8s_job_name = none;
  queued_at = some now;
  started_at = none;
  completed_at = none;
  duration_ms = none;
  attempt_number = 1;
  timeout = version.timeout;
}

abbrev pub scheduled_job : ℕ → Schedule → Function → FunctionVersion → Job
scheduled_job id fresh fn version = record {
  execution_id = id;
  function_id = fn.id;
  version_id = version.id;
  artifact_path = version.artifact_path;
  entrypoint = version.entrypoint;
  payload = fresh.payload;
  timeout = version.timeout;
  environment = version.environment;
  memory_mb = version.memory_mb;
  execution_type = none;
}

abbrev pub with_version : Function → Option FunctionVersion → Option (Function × FunctionVersion)
with_version fn none = none
with_version fn (some version) = some (fn, version)

unfoldable pub find_version :
    ℕ → Option Function → Action Session (Option (Function × FunctionVersion))
find_version draw none = pure none
find_version draw (some fn) = do
  version ← choose_execution_version fn none draw
  pure (with_version fn version)

-- What to run: the function, if it is there, and its version, if it has one.
unfoldable pub find_scheduled : Schedule → ℕ → Action Session (Option (Function × FunctionVersion))
find_scheduled fresh draw = do
  rows ← query (λ db. select (λ (f : Function). f.id == fresh.function_id) db.functions)
  fn ← lift (scalar_one_or_none rows)
  find_version draw fn

-- A fresh id, the time and the draw for each schedule that is fired.
pub record Call : Type 0 where
  pub id : ℕ
  pub now : ℕ
  pub draw : ℕ

module _ (cron : Cron) where
  abbrev pub moved : ℕ → Schedule → Schedule
  moved next fresh = record fresh { next_run_at = some next }

  -- `fresh.next_run_at = _compute_next(…)`
  unfoldable pub advance : ℕ → Schedule → Action Session (Unit {0})
  advance now fresh = do
    next ← lift (cron.get_next fresh.cron_expression now)
    write (save_schedule (moved next fresh))

  abbrev pub fired : ℕ → ℕ → ℕ → Schedule → Schedule
  fired id now next fresh = record fresh {
    last_run_at = some now;
    last_execution_id = some id;
    next_run_at = some next;
    missed_runs = 0;
  }

  -- The update of the schedule after an execution was queued.
  unfoldable pub finish_firing : ℕ → ℕ → Schedule → Action Session (Unit {0})
  finish_firing id now fresh = do
    next ← lift (cron.get_next fresh.cron_expression now)
    write (save_schedule (fired id now next fresh))

  module _ (show : Error → String) {Q : Type 0} (enqueue : ℕ → Job → Action Q (Unit {0})) where
    abbrev pub mark_unqueued : Execution → Result (Unit {0}) → Action Session (Unit {0})
    mark_unqueued e (ok _) = pure tt
    mark_unqueued e (err exc) = write (
        save_execution (record e {
          status = failed;
          error_message = some (show exc);
          failure_kind = some "queue";
        }))

    unfoldable pub start_scheduled :
        ℕ → Schedule → Execution → Job → Action (Session × Q) (Unit {0})
    start_scheduled now fresh e job = do
      on_session (write (add_execution e) >> commit)
      sent ← caught (on_service (enqueue e.id job))
      on_session (mark_unqueued e sent)
      on_session (finish_firing e.id now fresh)

    unfoldable pub fire_found :
        Settings
        → ℕ
        → ℕ
        → Schedule
        → ℕ
        → Option (Function × FunctionVersion)
        → Action (Session × Q) (Unit {0})
    fire_found settings id now fresh next_run_at none = on_session (advance now fresh)
    fire_found settings id now fresh next_run_at (some (fn, version)) =
        if is_missed settings now next_run_at
        then on_session (advance now fresh)
        else start_scheduled now fresh (scheduled_execution id now fresh fn version)
            (scheduled_job id fresh fn version)

    -- The part of `_fire_schedule` for a schedule that is due since `next_run_at`.
    unfoldable pub fire_due : Settings → ℕ → ℕ → ℕ → Schedule → ℕ → Action (Session × Q) (Unit {0})
    fire_due settings id now draw fresh next_run_at = do
      target ← on_session (find_scheduled fresh draw)
      fire_found settings id now fresh next_run_at target

    unfoldable pub fire_fresh :
        Settings → ℕ → ℕ → ℕ → Option Schedule → Action (Session × Q) (Unit {0})
    fire_fresh settings id now draw none = pure tt
    fire_fresh settings id now draw (some fresh) =
        if not (is_active_schedule fresh.status) then pure tt else elim fresh.next_run_at [
          | none ↦ pure tt
          | some next_run_at ↦
              if ltb now next_run_at
              then pure tt
              else fire_due settings id now draw fresh next_run_at
        ]

    unfoldable pub fire_schedule : Settings → ℕ → ℕ → ℕ → ℕ → Action (Session × Q) (Unit {0})
    fire_schedule settings id now draw schedule_id = do
      rows ← on_session (query (select_schedule schedule_id))
      fresh ← lift (scalar_one_or_none rows)
      fire_fresh settings id now draw fresh

    -- The loop of `_process_due_schedules`: each schedule has its session, and an exception of one is
    -- logged and passed over.
    unfoldable pub fire_all : Settings → (ℕ → Call) → List Schedule → Database × Q → Database × Q
    fire_all settings call [] (db, q) = (db, q)
    fire_all settings call (c ∷ cs) (db, q) =
        let (result, db', q') =
          with_db (fire_schedule settings (call c.id).id (call c.id).now (call c.id).draw c.id)
            (db, q) in
        fire_all settings call cs (db', q')

    -- `arranged` is the order in which the database returns the rows.
    unfoldable pub process_due_schedules :
        Settings → (List Schedule → List Schedule) → ℕ → (ℕ → Call) → Database × Q → Database × Q
    unfolding fire_all
    process_due_schedules settings arranged now call (db, q) =
        fire_all settings call (arranged (due_schedules now db)) (db, q)
