-- ===== src/Schedules.antt =====
-- api/routers/schedules.py: creating, reading, changing and deleting schedules. `croniter` is the
-- scheduler's parameter; a fresh id and the clock are arguments. The listing only reads.
pub mod Found
pub mod Due
pub mod Owners
mod Tests
use py_faa_s.Prelude.{
  ℕ, ◌==◌, is_id, ◌&&◌, String, Bool, Option, none, some, List, [], ◌∷◌, ◌++◌, select, delete_where,
  update_where,
}
use py_faa_s.Models.{
  Json, ScheduleStatus, User, Function, Schedule, Execution, Error, text, Result, ok, err,
}
use py_faa_s.Session.{
  Database, Session, Action, pure, lift, ◌>>=◌, ◌>>◌, query, write, scalar_one_or_none, or_raise,
  not_found, save_schedule,
}
use py_faa_s.Functions.{function_not_found, owned}
use py_faa_s.Scheduler.{Cron}

pub record ScheduleCreateRequest : Type 0 where
  pub name : String
  pub cron_expression : String
  pub payload : Json

pub record ScheduleUpdateRequest : Type 0 where
  pub name : Option String
  pub cron_expression : Option String
  pub payload : Option Json
  pub status : Option ScheduleStatus

abbrev pub schedule_not_found : Error
schedule_not_found = not_found (text "Schedule not found")

abbrev pub owned_schedule : ℕ → User → Schedule → Bool
owned_schedule schedule_id owner c = c.id == schedule_id && c.owner_id == owner.id

-- The row of a new schedule, with the defaults of its columns.
abbrev pub new_schedule : ℕ → ℕ → ScheduleCreateRequest → User → ℕ → Schedule
new_schedule id function_id body current_user next_run_at = record {
  id = id;
  function_id = function_id;
  owner_id = current_user.id;
  name = body.name;
  cron_expression = body.cron_expression;
  payload = body.payload;
  status = ScheduleStatus.active;
  next_run_at = some next_run_at;
  last_run_at = none;
  last_execution_id = none;
  missed_runs = 0;
}

abbrev pub add_schedule : Schedule → Database → Database
add_schedule c db = record db { schedules = db.schedules ++ c ∷ [] }

-- The executions of a schedule stay, and forget it (`ondelete="SET NULL"`).
abbrev pub remove_schedule : ℕ → Database → Database
remove_schedule id db = record db {
  schedules = delete_where (λ c. c.id == id) db.schedules;
  executions =
      update_where (λ e. is_id e.schedule_id id) (λ e. record e { schedule_id = none })
        db.executions;
}

-- `if value is not None: s.field = value`
abbrev pub or_kept {ℓ} : {A : Type ℓ} → Option A → A → A
or_kept none old = old
or_kept (some v) old = v

-- The query that the handlers share, and its 404.
unfoldable pub find_schedule : ℕ → User → Action Session Schedule
find_schedule schedule_id current_user = do
  rows ← query (λ db. select (owned_schedule schedule_id current_user) db.schedules)
  lift (or_raise schedule_not_found (scalar_one_or_none rows))

unfoldable pub get_schedule : ℕ → User → Action Session Schedule
unfolding find_schedule
get_schedule schedule_id current_user = find_schedule schedule_id current_user

unfoldable pub delete_schedule : ℕ → User → Action Session (Unit {0})
delete_schedule schedule_id current_user = do
  c ← find_schedule schedule_id current_user
  write (remove_schedule c.id)

module _ (cron : Cron) where
  -- `_next_run`
  abbrev pub next_run : String → ℕ → Result ℕ
  next_run cron_expr now = cron.get_next cron_expr now

  unfoldable pub create_schedule :
      ℕ → ℕ → ScheduleCreateRequest → ℕ → User → Action Session Schedule
  create_schedule id now body function_id current_user = do
    rows ← query (λ db. select (owned function_id current_user) db.functions)
    fn ← lift (or_raise function_not_found (scalar_one_or_none rows))
    next_run_at ← lift (next_run body.cron_expression now)
    write (add_schedule (new_schedule id function_id body current_user next_run_at))
    pure (new_schedule id function_id body current_user next_run_at)

  abbrev pub renamed : Option String → Schedule → Schedule
  renamed name c = record c { name = or_kept name c.name }

  -- A new expression also plans the next run; the old plan stays otherwise.
  abbrev pub replanned : ℕ → Option String → Schedule → Result Schedule
  replanned now none c = ok c
  replanned now (some expression) c = elim (next_run expression now) [
    | err exc ↦ err exc
    | ok t ↦ ok (record c { cron_expression = expression; next_run_at = some t })
  ]

  abbrev pub with_rest : ScheduleUpdateRequest → Schedule → Schedule
  with_rest body c = record c {
    payload = or_kept body.payload c.payload;
    status = or_kept body.status c.status;
  }

  unfoldable pub update_schedule : ℕ → ScheduleUpdateRequest → ℕ → User → Action Session Schedule
  update_schedule now body schedule_id current_user = do
    c ← find_schedule schedule_id current_user
    planned ← lift (replanned now body.cron_expression (renamed body.name c))
    write (save_schedule (with_rest body planned))
    pure (with_rest body planned)
