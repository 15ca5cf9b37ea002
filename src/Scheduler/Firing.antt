-- ===== src/Scheduler/Firing.antt =====
-- How firing a schedule ends, and that a fired schedule is not due again at the same time.
use py_faa_s.Prelude.{
  ℕ, Option, String, ◌==◌, ◌≡◌, refl, ◌≢◌, ◌<◌, ◌≤◌, ◌+◌, ◌*◌, ◌⊎◌, inl, inr, true, false, some,
  none, [], ◌∷◌, ◌++◌, arith, select, All, Option-cases,
}
use py_faa_s.Prelude.Rows.{put, put-append_new}
use py_faa_s.Config.{Settings}
use py_faa_s.Models.{
  active, Function, FunctionVersion, Execution, Schedule, Error, Result, ok, err, failed, queued,
}
use py_faa_s.Session.{
  Database, Session, Action, get_db, add_execution, save_schedule, scalar_one_or_none,
}
use py_faa_s.Session.Reads.{Reads, Reads-bind, Reads-query, Reads-lift}
use py_faa_s.Routing.Share.{choose-Reads}
use py_faa_s.Executions.{Job}
use py_faa_s.Scheduler.{
  Cron, is_due, select_schedule, scheduled_execution, scheduled_job, find_version, with_version,
  find_scheduled, moved, advance, fired, finish_firing, start_scheduled, fire_due, fire_fresh,
  fire_schedule,
}

find_version-Reads : (draw : ℕ) (fn : Option Function) → Reads (find_version draw fn)
unfolding find_version
find_version-Reads draw none = Reads-lift (ok none)
find_version-Reads draw (some fn) =
    Reads-bind (choose-Reads fn none draw) (λ version. Reads-lift (ok (with_version fn version)))

pub find_scheduled-Reads : (fresh : Schedule) (draw : ℕ) → Reads (find_scheduled fresh draw)
unfolding find_scheduled
find_scheduled-Reads fresh draw =
    Reads-bind
      (Reads-query (λ db. select (λ (f : Function). f.id == fresh.function_id) db.functions))
      λ rows. Reads-bind (Reads-lift (scalar_one_or_none rows)) λ fn. find_version-Reads draw fn

module _ (cron : Cron) (show : Error → String) {Q : Type 0}
    (enqueue : ℕ → Job → Action Q (Unit {0})) (settings : Settings) (id now draw : ℕ) where
  abbrev pub fire : ℕ → Action (Session × Q) (Unit {0})
  fire = fire_schedule cron show enqueue settings id now draw

  -- The row of an execution whose job the queue did not take.
  abbrev pub unqueued : Execution → Error → Execution
  unqueued e exc = record e {
    status = failed;
    error_message = some (show exc);
    failure_kind = some "queue";
  }

  -- How the queue took the job of a new execution, and the row that the execution has then.
  pub data Sent (e : Execution) (job : Job) (q : Q) (row : Execution) (q' : Q) : Type 0 where
    accepted : enqueue e.id job q ≡ (ok tt, q') → row ≡ e → Sent e job q row q'
    rejected :
        (exc : Error)
        → enqueue e.id job q ≡ (err exc, q')
        → row ≡ unqueued e exc
        → Sent e job q row q'

  abbrev pub target : Schedule → Database → Result (Option (Function × FunctionVersion))
  target c db = (get_db (find_scheduled c draw) db).0

  -- How late, in microseconds, a schedule may still be fired.
  abbrev pub grace : ℕ
  grace = settings.scheduler_poll_interval * settings.scheduler_max_missed_runs * 1000000

  -- A due schedule that has nothing to run, or is too late.
  pub record Skips (c : Schedule) (db : Database) : Type 0 where
    pub due : is_due now c ≡ true
    pub since : ℕ
    pub at : c.next_run_at ≡ some since
    pub is_active : c.status ≡ active
    pub reached : since ≤ now
    pub reason :
        (target c db ≡ ok none)
        ⊎ (((fn : Function) × (version : FunctionVersion) × (target c db ≡ ok (some (fn, version))))
            × (since + grace < now))

  -- A due schedule in time, and what it runs.
  pub record Runs (c : Schedule) (db : Database) (fn : Function) (version : FunctionVersion)
      : Type 0 where
    pub due : is_due now c ≡ true
    pub since : ℕ
    pub at : c.next_run_at ≡ some since
    pub is_active : c.status ≡ active
    pub reached : since ≤ now
    pub in_time : now ≤ since + grace
    pub found : target c db ≡ ok (some (fn, version))
    pub waits : (scheduled_execution id now c fn version).status ≡ queued
    pub of_schedule : (scheduled_execution id now c fn version).schedule_id ≡ some c.id
    pub of_version : (scheduled_execution id now c fn version).function_version_id ≡ some version.id

  -- How firing the schedule with id `k` ends, on a database and a queue.
  pub data Fires (k : ℕ) (db : Database) (q : Q) (end : Result (Unit {0}) × Database × Q)
      : Type 0 where
    missing : select_schedule k db ≡ [] → end ≡ (ok tt, db, q) → Fires k db q end
    idle :
        (c : Schedule)
        → select_schedule k db ≡ c ∷ []
        → is_due now c ≡ false
        → end ≡ (ok tt, db, q)
        → Fires k db q end
    skipped :
        (c : Schedule) (next : ℕ)
        → select_schedule k db ≡ c ∷ []
        → Skips c db
        → now < next
        → end ≡ (ok tt, save_schedule (record c { next_run_at = some next }) db, q)
        → Fires k db q end
    started :
        (c : Schedule) (fn : Function) (version : FunctionVersion) (next : ℕ) (row : Execution)
        (q' : Q)
        → select_schedule k db ≡ c ∷ []
        → Runs c db fn version
        → now < next
        → Sent (scheduled_execution id now c fn version) (scheduled_job id c fn version) q row q'
        → (let next_row : Schedule = record c {
          last_run_at = some now;
          last_execution_id = some id;
          next_run_at = some next;
          missed_runs = 0;
        } in
            end ≡ (ok tt, save_schedule next_row (add_execution row db), q'))
        → Fires k db q end
    raises : (exc : Error) → end.0 ≡ err exc → end.1.schedules ≡ db.schedules → Fires k db q end

  pub fire_fresh-idle :
      (c : Schedule) (s : Session) (q : Q)
      → is_due now c ≡ false
      → fire_fresh cron show enqueue settings id now draw (some c) (s, q) ≡ (ok tt, (s, q))
  unfolding fire_fresh
  fire_fresh-idle c s q h = ground arith

  pub fire_fresh-due :
      (c : Schedule) (s : Session) (q : Q)
      → is_due now c ≡ true
      → (t : ℕ) × (c.next_run_at ≡ some t)
        × (fire_fresh cron show enqueue settings id now draw (some c) (s, q)
            ≡ fire_due cron show enqueue settings id now draw c t (s, q))
  unfolding fire_fresh
  fire_fresh-due c s q h = elim (Option-cases c.next_run_at) [
    | inl never ↦ absurd (ground arith)
    | inr (t, at) ↦ (t, at, ground arith)
  ]

  -- What a session ends with after the schedule `c` was changed by `f`.
  module _ (c : Schedule) (f : ℕ → Schedule) (m : Action Session (Unit {0})) where
    -- Either the next time is after now, or `croniter` raises and nothing is written.
    abbrev pub Reschedules : Type 0
    Reschedules =
        (s : Session)
        → ((next : ℕ) × (now < next)
            × (m s ≡ (ok tt, record s { live = save_schedule (f next) s.live })))
          ⊎ ((exc : Error) × (m s ≡ (err exc, s)))

  pub advance-Reschedules :
      (c : Schedule) → Reschedules c (λ next. moved cron next c) (advance cron now c)
  unfolding advance
  advance-Reschedules c s = computed (cron.get_next c.cron_expression now) refl
    where
      computed :
          (r : Result ℕ)
          → cron.get_next c.cron_expression now ≡ r
          → ((next : ℕ) × (now < next)
              × (advance cron now c s
                  ≡ (ok tt, record s { live = save_schedule (moved cron next c) s.live })))
            ⊎ ((exc : Error) × (advance cron now c s ≡ (err exc, s)))
      computed (ok next) h = inl (next, cron.later c.cron_expression now next h, ground (arith, h))
      computed (err exc) h = inr (exc, ground (arith, h))

  pub finish_firing-Reschedules :
      (c : Schedule)
      → Reschedules c (λ next. fired cron id now next c) (finish_firing cron id now c)
  unfolding finish_firing
  finish_firing-Reschedules c s = computed (cron.get_next c.cron_expression now) refl
    where
      computed :
          (r : Result ℕ)
          → cron.get_next c.cron_expression now ≡ r
          → ((next : ℕ) × (now < next)
              × (finish_firing cron id now c s
                  ≡ (ok tt, record s { live = save_schedule (fired cron id now next c) s.live })))
            ⊎ ((exc : Error) × (finish_firing cron id now c s ≡ (err exc, s)))
      computed (ok next) h = inl (next, cron.later c.cron_expression now next h, ground (arith, h))
      computed (err exc) h = inr (exc, ground (arith, h))

  -- The session after the commit of a new execution, whose row becomes `row`.
  abbrev pub sent_session : Execution → Execution → Database → Session
  sent_session e row db = record { live = add_execution row db; saved = add_execution e db }

  pub start_scheduled-Sent :
      (c : Schedule) (e : Execution) (job : Job) (db : Database) (q : Q)
      → All (λ x. x.id ≢ e.id) db.executions
      → (row : Execution) × (q' : Q) × Sent e job q row q'
        × (start_scheduled cron show enqueue now c e job (record { live = db; saved = db }, q) ≡ (
          (finish_firing cron e.id now c (sent_session e row db)).0,
          ((finish_firing cron e.id now c (sent_session e row db)).1, q'),
        ))
  unfolding start_scheduled
  start_scheduled-Sent c e job db q new = sent (enqueue e.id job q) refl
    where
      sent :
          (r : Result (Unit {0}) × Q)
          → enqueue e.id job q ≡ r
          → (row : Execution) × (q' : Q) × Sent e job q row q'
            × (start_scheduled cron show enqueue now c e job (record { live = db; saved = db }, q)
                ≡ (
                  (finish_firing cron e.id now c (sent_session e row db)).0,
                  ((finish_firing cron e.id now c (sent_session e row db)).1, q'),
                ))
      sent (ok _, q') h = (e, q', accepted h refl, ground (arith, h))
      sent (err exc, q') h =
          let last : put (λ (x : Execution). x.id) (unqueued e exc) (db.executions ++ e ∷ [])
              ≡ db.executions ++ unqueued e exc ∷ [] =
            put-append_new (λ (x : Execution). x.id) e (unqueued e exc) db.executions refl new in
          (unqueued e exc, q', rejected exc h refl, ground (arith, h, last))
