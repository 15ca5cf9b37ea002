-- ===== src/Scheduler/Outcomes.antt =====
-- Firing a schedule as a whole, and firing it again.
use py_faa_s.Prelude.{
  ℕ, Option, List, String, ◌≡◌, refl, ◌≢◌, ◌∙◌, ap, sym, ◌<◌, inl, inr, true, false, some, none, [],
  ◌∷◌, arith, map, All, Bool-cases,
}
use py_faa_s.Prelude.Rows.{with_key-put_self, All-with_key}
use py_faa_s.Config.{Settings}
use py_faa_s.Models.{Function, FunctionVersion, Schedule, Error, Result, ok, err, multiple_results}
use py_faa_s.Session.{
  Database, Session, Action, on_session, with_db, get_db, save_schedule, add_execution,
}
use py_faa_s.Executions.{Job}
use py_faa_s.Scheduler.{
  Cron, is_due, is_missed, select_schedule, scheduled_execution, scheduled_job, find_scheduled,
  moved, advance, fired, start_scheduled, fire_found, fire_due, fire_fresh, fire_schedule,
}
use py_faa_s.Scheduler.Firing.{
  find_scheduled-Reads, fire, Fires, missing, idle, skipped, started, raises, Skips, Runs,
  fire_fresh-idle, fire_fresh-due, advance-Reschedules, finish_firing-Reschedules,
  start_scheduled-Sent, sent_session,
}

module _ (cron : Cron) (show : Error → String) {Q : Type 0}
    (enqueue : ℕ → Job → Action Q (Unit {0})) (settings : Settings) (id now draw : ℕ) where
  -- A due schedule, once it was looked up.
  due-Fires :
      (k : ℕ) (c : Schedule) (t : ℕ) (db : Database) (q : Q)
      → select_schedule k db ≡ c ∷ []
      → is_due now c ≡ true
      → c.next_run_at ≡ some t
      → with_db (fire cron show enqueue settings id now draw k) (db, q)
        ≡ with_db (fire_due cron show enqueue settings id now draw c t) (db, q)
      → All (λ x. x.id ≢ id) db.executions
      → Fires cron show enqueue settings id now draw k db q
          (with_db (fire cron show enqueue settings id now draw k) (db, q))
  unfolding fire_due fire_found get_db
  due-Fires k c t db q found due since whole new =
      chosen (find_scheduled c draw opened) refl ((find_scheduled-Reads c draw).same opened)
    where
      opened : Session
      opened = record { live = db; saved = db }

      End : Type 0
      End =
          Fires cron show enqueue settings id now draw k db q
            (with_db (fire cron show enqueue settings id now draw k) (db, q))

      skip :
          Skips cron show enqueue settings id now draw c db
          → with_db (fire_due cron show enqueue settings id now draw c t) (db, q)
            ≡ with_db (on_session (advance cron now c)) (db, q)
          → End
      skip reason same =
          elim (advance-Reschedules cron show enqueue settings id now draw c opened) [
            | inl (next, after, moves) ↦
                skipped c next found reason after (whole ∙ same ∙ ground (arith, moves))
            | inr (exc, fails) ↦
                raises exc (ap (λ e. e.0) (whole ∙ same) ∙ ground (arith, fails))
                  (ap (λ e. e.1.schedules) (whole ∙ same) ∙ ground (arith, fails))
          ]

      run :
          (fn : Function) (version : FunctionVersion)
          → Runs cron show enqueue settings id now draw c db fn version
          → with_db (fire_due cron show enqueue settings id now draw c t) (db, q)
            ≡ with_db
                (start_scheduled cron show enqueue now c
                  (scheduled_execution id now c fn version)
                  (scheduled_job id c fn version))
                (db, q)
          → End
      run fn version passed same =
          let (row, q', sent, starts) =
            start_scheduled-Sent cron show enqueue settings id now draw c
              (scheduled_execution id now c fn version) (scheduled_job id c fn version) db q new in
          elim (finish_firing-Reschedules cron show enqueue settings id now draw c (
            sent_session cron show enqueue settings id now draw
              (scheduled_execution id now c fn version) row db)) [
                | inl (next, after, moves) ↦
                    started c fn version next row q' found passed after sent
                      (whole ∙ same ∙ ground (arith, starts, moves))
                | inr (exc, fails) ↦
                    raises exc (ap (λ e. e.0) (whole ∙ same) ∙ ground (arith, starts, fails))
                      (ap (λ e. e.1.schedules) (whole ∙ same) ∙ ground (arith, starts, fails))
              ]

      late :
          (fn : Function) (version : FunctionVersion)
          → find_scheduled c draw opened ≡ (ok (some (fn, version)), opened)
          → End
      late fn version h = elim (Bool-cases (is_missed settings now t)) [
        | inl over ↦
            skip
              (record {
                due = due;
                since = t;
                at = since;
                is_active = ground (arith, due);
                reached = ground (arith, due, since);
                reason = inr ((fn, version, ground (arith, h)), ground (arith, over));
              })
              (ground (arith, h, over))
        | inr in_time ↦
            run fn version
              (record {
                due = due;
                since = t;
                at = since;
                is_active = ground (arith, due);
                reached = ground (arith, due, since);
                in_time = ground (arith, in_time);
                found = ground (arith, h);
                waits = refl;
                of_schedule = refl;
                of_version = refl;
              })
              (ground (arith, h, in_time))
      ]

      chosen :
          (r : Result (Option (Function × FunctionVersion)) × Session)
          → find_scheduled c draw opened ≡ r
          → (find_scheduled c draw opened).1 ≡ opened
          → End
      chosen (err exc, s) h same =
          raises exc (ap (λ e. e.0) whole ∙ ground (arith, h))
            (ap (λ e. e.1.schedules) whole ∙ ground (arith, h))
      chosen (ok none, s) h same =
          skip
            (record {
              due = due;
              since = t;
              at = since;
              is_active = ground (arith, due);
              reached = ground (arith, due, since);
              reason = inl (ground (arith, h));
            })
            (ground (arith, h, same))
      chosen (ok (some (fn, version)), s) h same =
          let at_start : s ≡ opened = ground (arith, h, same) in
          late fn version (h ∙ ap (λ x. (ok (some (fn, version)), x)) at_start)

  fire-missing :
      (k : ℕ) (db : Database) (q : Q)
      → select_schedule k db ≡ []
      → with_db (fire cron show enqueue settings id now draw k) (db, q) ≡ (ok tt, db, q)
  unfolding fire_schedule fire_fresh
  fire-missing k db q found = ground (arith, found)

  fire-found :
      (k : ℕ) (c : Schedule) (db : Database) (q : Q)
      → select_schedule k db ≡ c ∷ []
      → fire cron show enqueue settings id now draw k (record { live = db; saved = db }, q)
        ≡ fire_fresh cron show enqueue settings id now draw
            (some c)
            (record { live = db; saved = db }, q)
  unfolding fire_schedule
  fire-found k c db q found = ground (arith, found)

  pub fire-idle :
      (k : ℕ) (c : Schedule) (db : Database) (q : Q)
      → select_schedule k db ≡ c ∷ []
      → is_due now c ≡ false
      → with_db (fire cron show enqueue settings id now draw k) (db, q) ≡ (ok tt, db, q)
  fire-idle k c db q found rests = ground (
    arith,
    fire-found k c db q found,
    fire_fresh-idle cron show enqueue settings id now draw c (record { live = db; saved = db }) q
        rests,
  )

  fire-raises :
      (k : ℕ) (x y : Schedule) (cs : List Schedule) (db : Database) (q : Q)
      → select_schedule k db ≡ x ∷ y ∷ cs
      → with_db (fire cron show enqueue settings id now draw k) (db, q)
        ≡ (err multiple_results, db, q)
  unfolding fire_schedule
  fire-raises k x y cs db q found = ground (arith, found)

  -- Firing a schedule with a fresh execution id ends in one of five ways. Without a schedule that is
  -- due, nothing changes. One that has nothing to run, or is over the limit for missed runs, gets
  -- its next time, after now. In time, one execution is added, queued or, if the queue raised,
  -- failed, and the schedule points to it and has its next time. Or an exception is raised, and no
  -- schedule has changed.
  pub fire_schedule-Fires :
      (k : ℕ) (db : Database) (q : Q)
      → All (λ x. x.id ≢ id) db.executions
      → Fires cron show enqueue settings id now draw k db q
          (with_db (fire cron show enqueue settings id now draw k) (db, q))
  fire_schedule-Fires k db q new = looked (select_schedule k db) refl
    where
      looked :
          (l : List Schedule)
          → select_schedule k db ≡ l
          → Fires cron show enqueue settings id now draw k db q
              (with_db (fire cron show enqueue settings id now draw k) (db, q))
      looked [] h = missing h (fire-missing k db q h)
      looked (x ∷ y ∷ cs) h =
          let end = fire-raises k x y cs db q h in
          raises multiple_results (ap (λ e. e.0) end) (ap (λ e. e.1.schedules) end)
      looked (c ∷ []) h = elim (Bool-cases (is_due now c)) [
        | inr rests ↦ idle c h rests (fire-idle k c db q h rests)
        | inl due ↦
            let (t, since, fires) =
              fire_fresh-due cron show enqueue settings id now draw c
                (record { live = db; saved = db }) q due in
            due-Fires k c t db q h due since (ground (arith, fire-found k c db q h, fires)) new
      ]

-- The row that an update puts in place of a schedule is found in its place.
rescheduled :
    (k : ℕ) (c c' : Schedule) (db : Database)
    → c'.id ≡ c.id
    → select_schedule k db ≡ c ∷ []
    → select_schedule k (save_schedule c' db) ≡ c' ∷ []
rescheduled k c c' db same found =
    let here : c.id ≡ k = (rw found at (All-with_key (λ (x : Schedule). x.id) k db.schedules)).0 in
    let there : c'.id ≡ k = same ∙ here in
    rw (← there) (
      with_key-put_self (λ (x : Schedule). x.id) c' db.schedules
      ∙ ap (map (λ (_ : Schedule). c')) (rw (← there) at found))

later-is_due :
    (now next : ℕ) (c : Schedule) → c.next_run_at ≡ some next → now < next → is_due now c ≡ false
later-is_due now next c at later = ground (arith, at, later)

module _ (cron : Cron) (show : Error → String) {Q : Type 0}
    (enqueue : ℕ → Job → Action Q (Unit {0})) (settings : Settings) (now : ℕ) where
  -- When firing a schedule with a fresh execution id has returned, firing it again at the same time
  -- returns and changes neither the database nor the queue, whatever the new execution id and the
  -- draw are.
  pub fire_schedule-again :
      (id id' draw draw' k : ℕ) (db db' : Database) (q q' : Q)
      → All (λ x. x.id ≢ id) db.executions
      → with_db (fire_schedule cron show enqueue settings id now draw k) (db, q) ≡ (ok tt, db', q')
      → with_db (fire_schedule cron show enqueue settings id' now draw' k) (db', q')
        ≡ (ok tt, db', q')
  fire_schedule-again id id' draw draw' k db db' q q' new first =
      elim (fire_schedule-Fires cron show enqueue settings id now draw k db q new) [
        | missing found end ↦
            fire-missing cron show enqueue settings id' now draw' k db' q'
              (ap (select_schedule k) (left db end) ∙ found)
        | idle c found rests end ↦ at_rest c (ap (select_schedule k) (left db end) ∙ found) rests
        | skipped c next found reason after end ↦
            at_rest (moved cron next c)
              (ap (select_schedule k) (left (save_schedule (moved cron next c) db) end)
                ∙ rescheduled k c (moved cron next c) db refl found)
              (later-is_due now next (moved cron next c) refl after)
        | started c fn version next row q'' found passed after sent end ↦
            at_rest (fired cron id now next c)
              (ap (select_schedule k)
                  (left (save_schedule (fired cron id now next c) (add_execution row db)) end)
                ∙ rescheduled k c (fired cron id now next c) (add_execution row db) refl found)
              (later-is_due now next (fired cron id now next c) refl after)
        | raises exc end kept ↦
            let clash : ok tt ≡ err exc = sym (ap (λ e. e.0) first) ∙ end in
            absurd (ground (arith, clash))
      ]
    where
      -- What the first firing has left in the database.
      left :
          {q'' : Q} (x : Database)
          → with_db (fire_schedule cron show enqueue settings id now draw k) (db, q)
            ≡ (ok tt, x, q'')
          → db' ≡ x
      left x end = ap (λ e. e.1) (sym first ∙ end)

      at_rest :
          (c : Schedule)
          → select_schedule k db' ≡ c ∷ []
          → is_due now c ≡ false
          → with_db (fire_schedule cron show enqueue settings id' now draw' k) (db', q')
            ≡ (ok tt, db', q')
      at_rest c found rests =
          fire-idle cron show enqueue settings id' now draw' k c db' q' found rests
