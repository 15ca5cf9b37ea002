-- ===== src/Schedules/Tests.antt =====
-- The schedules router at work, with a run every sixty microseconds.
use py_faa_s.Prelude.{ℕ, String, ◌≡◌, refl, ◌+◌, ◌<◌, none, some, arith}
use py_faa_s.Models.{null, ScheduleStatus, ok}
use py_faa_s.Session.{Session}
use py_faa_s.Session.Samples.{db, alice}
use py_faa_s.Scheduler.{Cron}
use py_faa_s.Schedules.{
  ScheduleCreateRequest, ScheduleUpdateRequest, create_schedule, update_schedule, delete_schedule,
  new_schedule, add_schedule,
}
use py_faa_s.Schedules.Due.{
  Plans, Stops, create_schedule-Plans, update_schedule-Stops, delete_schedule-Stops,
}
use py_faa_s.Schedules.Owners.{others, schedules_of_others}

every-later : (expression : String) (base t : ℕ) → ok (base + 60) ≡ ok t → base < t
every-later expression base t h = ground (arith, h)

abbrev every : Cron
every = record { get_next = λ expression base. ok (base + 60); later = every-later }

abbrev body : ScheduleCreateRequest
body = record { name = "nightly"; cron_expression = "* * * * *"; payload = null }

abbrev pausing : ScheduleUpdateRequest
pausing = record {
  name = none;
  cron_expression = none;
  payload = none;
  status = some ScheduleStatus.paused;
}

abbrev empty : Session
empty = record { live = db; saved = db }

-- The same database with schedule 90 of function 10.
abbrev running : Session
running = record empty { live = add_schedule (new_schedule 90 10 body alice 160) db }

create_schedule-Plans_example :
    Plans 100 160 empty (create_schedule every 90 100 body 10 alice empty)
create_schedule-Plans_example = create_schedule-Plans every 90 100 body 10 alice 160 empty

update_schedule-Stops_example :
    Stops 500 90 running (update_schedule every 200 pausing 90 alice running)
update_schedule-Stops_example =
    update_schedule-Stops every 200 pausing ScheduleStatus.paused 90 alice 500 running refl refl

stopped_by_deletion : Stops 500 90 running (delete_schedule 90 alice running)
stopped_by_deletion = delete_schedule-Stops 90 alice 500 running

schedules_of_others_example :
    (others alice (update_schedule every 200 pausing 90 alice running).1.live
      ≡ others alice running.live)
    × (others alice (delete_schedule 90 alice running).1.live ≡ others alice running.live)
schedules_of_others_example = schedules_of_others every 90 alice running (omega arith) 200 pausing
