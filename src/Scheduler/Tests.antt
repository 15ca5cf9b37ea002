-- ===== src/Scheduler/Tests.antt =====
-- A schedule that is due every sixty microseconds, on a queue that takes every job.
use py_faa_s.Prelude.{ℕ, String, List, ◌≡◌, refl, ◌+◌, ◌<◌, none, some, [], ◌∷◌, arith, length}
use py_faa_s.Config.{default_settings}
use py_faa_s.Models.{null, Schedule, ScheduleStatus, Error, ok}
use py_faa_s.Session.{Database, Action, with_db}
use py_faa_s.Session.Samples.{db}
use py_faa_s.Routing.{choose_execution_version}
use py_faa_s.Executions.{Job}
use py_faa_s.Scheduler.{
  Cron, fire_schedule, fire_fresh, fire_due, fire_found, start_scheduled, finish_firing, advance,
  find_scheduled, find_version, process_due_schedules,
}
use py_faa_s.Scheduler.Firing.{Fires}
use py_faa_s.Scheduler.Outcomes.{fire_schedule-Fires, fire_schedule-again}

every-later : (expression : String) (base t : ℕ) → ok (base + 60) ≡ ok t → base < t
every-later expression base t h = ground (arith, h)

abbrev every : Cron
every = record { get_next = λ expression base. ok (base + 60); later = every-later }

abbrev show : Error → String
show e = "error"

abbrev put_job : ℕ → Job → Action (List (ℕ × Job)) (Unit {0})
put_job id job js = (ok tt, (id, job) ∷ js)

abbrev nightly : Schedule
nightly = record {
  id = 90;
  function_id = 10;
  owner_id = 1;
  name = "nightly";
  cron_expression = "0 3 * * *";
  payload = null;
  status = ScheduleStatus.active;
  next_run_at = some 100;
  last_run_at = none;
  last_execution_id = none;
  missed_runs = 0;
}

abbrev planned : Database
planned = record db { schedules = nightly ∷ [] }

fire_schedule-Fires_example :
    Fires every show put_job default_settings 71 105 99 90 planned []
      (with_db (fire_schedule every show put_job default_settings 71 105 99 90) (planned, []))
fire_schedule-Fires_example =
    fire_schedule-Fires every show put_job default_settings 71 105 99 90 planned [] tt

runs : Unit {0}
unfolding fire_schedule fire_fresh fire_due fire_found start_scheduled finish_firing advance
    find_scheduled find_version choose_execution_version process_due_schedules
runs = tt

abbrev fired_db : Database
fired_db =
    (with_db (fire_schedule every show put_job default_settings 71 105 99 90) (planned, [])).1

abbrev fired_queue : List (ℕ × Job)
fired_queue =
    (with_db (fire_schedule every show put_job default_settings 71 105 99 90) (planned, [])).2

-- One tick fires the schedule once, and the next tick at the same time does not.
ticks :
    length
      (process_due_schedules every show put_job default_settings
        (λ cs. cs)
        105
        (λ _. record { id = 72; now = 105; draw = 0 })
        (process_due_schedules every show put_job default_settings
          (λ cs. cs)
          105
          (λ _. record { id = 71; now = 105; draw = 0 })
          (planned, []))).1
    ≡ 1
unfolding runs
ticks = refl

first_returns :
    with_db (fire_schedule every show put_job default_settings 71 105 99 90) (planned, [])
    ≡ (ok tt, fired_db, fired_queue)
unfolding runs
first_returns = refl

fire_schedule-again_example :
    with_db (fire_schedule every show put_job default_settings 72 105 0 90) (fired_db, fired_queue)
    ≡ (ok tt, fired_db, fired_queue)
fire_schedule-again_example =
    fire_schedule-again every show put_job default_settings 105 71 72 99 0 90 planned fired_db []
      fired_queue tt first_returns
