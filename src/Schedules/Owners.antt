-- ===== src/Schedules/Owners.antt =====
-- A handler does not touch the schedules of other users.
use mathlib.Core.Path.{subst}
use py_faa_s.Prelude.{
  not, ◌≤◌, ◌&&◌, length, ℕ, ◌==◌, ◌≡◌, refl, sym, ◌∙◌, false, List, [], ◌∷◌, select, All, arith,
  delete_where, update_where,
}
use py_faa_s.Models.{User, Schedule, Result, ok, err}
use py_faa_s.Session.{
  Action, write, lift, pure, ◌>>◌, save_schedule, ◌>>=◌, Database, Session, scalar_one_or_none,
  or_raise,
}
use py_faa_s.Scheduler.{Cron}
use py_faa_s.Schedules.{
  ScheduleUpdateRequest, update_schedule, delete_schedule, remove_schedule, schedule_not_found,
  owned_schedule, replanned, renamed, with_rest,
}
use py_faa_s.Schedules.Found.{find_schedule-id, on_found, replanned-id}

abbrev pub others : User → Database → List Schedule
others u db = select (λ c. not (c.owner_id == u.id)) db.schedules

module _ (id : ℕ) (u : User) where
  -- The rows with this id belong to the user.
  abbrev KeyOwned : List Schedule → Type 0
  KeyOwned rows = All (λ c. (c.id == id && not (c.owner_id == u.id)) ≡ false) rows

  owned-le-keyed :
      (rows : List Schedule)
      → length (select (owned_schedule id u) rows) ≤ length (select (λ c. c.id == id) rows)
  owned-le-keyed [] = omega arith
  owned-le-keyed (c ∷ rows) = ground (arith, owned-le-keyed rows)

  unkeyed-KeyOwned :
      (rows : List Schedule) → length (select (λ c. c.id == id) rows) ≤ 0 → KeyOwned rows
  unkeyed-KeyOwned [] h = tt
  unkeyed-KeyOwned (c ∷ rows) h = ground (arith, unkeyed-KeyOwned rows)

  found-KeyOwned :
      (rows : List Schedule)
      → length (select (λ c. c.id == id) rows) ≤ 1
      → 1 ≤ length (select (owned_schedule id u) rows)
      → KeyOwned rows
  found-KeyOwned [] h k = tt
  found-KeyOwned (c ∷ rows) h k =
      ground (arith, found-KeyOwned rows, unkeyed-KeyOwned rows, owned-le-keyed rows)

  put_others :
      (v : Schedule) (rows : List Schedule)
      → KeyOwned rows
      → v.owner_id ≡ u.id
      → select (λ c. not (c.owner_id == u.id)) (update_where (λ c. c.id == id) (λ _. v) rows)
        ≡ select (λ c. not (c.owner_id == u.id)) rows
  put_others v [] h e = refl
  put_others v (c ∷ rows) h e = ground (arith, put_others v rows h.1 e, h.0)

  delete_others :
      (rows : List Schedule)
      → KeyOwned rows
      → select (λ c. not (c.owner_id == u.id)) (delete_where (λ c. c.id == id) rows)
        ≡ select (λ c. not (c.owner_id == u.id)) rows
  delete_others [] h = refl
  delete_others (c ∷ rows) h = ground (arith, delete_others rows h.1, h.0)

some-length :
    (rows : List Schedule) (c : Schedule)
    → or_raise schedule_not_found (scalar_one_or_none rows) ≡ ok c
    → 1 ≤ length rows
some-length [] c h = absurd (cc)
some-length (x ∷ rows) c h = omega arith

module _ (cron : Cron) (id : ℕ) (u : User) (s : Session) where
  abbrev Kept : {A : Type 0} → Result A × Session → Type 0
  Kept r = others u r.1.live ≡ others u s.live

  module _ (unique : length (select (λ c. c.id == id) s.live.schedules) ≤ 1) where
    key_owned :
        (c : Schedule)
        → or_raise schedule_not_found
            (scalar_one_or_none (select (owned_schedule id u) s.live.schedules))
          ≡ ok c
        → KeyOwned id u s.live.schedules
    key_owned c h = found-KeyOwned id u s.live.schedules unique (some-length _ c h)

    delete-Kept : Kept (delete_schedule id u s)
    unfolding delete_schedule
    delete-Kept =
        on_found id u s (λ c. write (remove_schedule c.id)) Kept (λ exc. refl)
          (λ c h.
            subst
              (λ (k : ℕ).
                select (λ x. not (x.owner_id == u.id))
                  (delete_where (λ x. x.id == k) s.live.schedules)
                ≡ others u s.live)
              (sym (find_schedule-id id u s c h).0)
              (delete_others id u s.live.schedules (key_owned c h)))

    update-Kept :
        (now : ℕ) (body : ScheduleUpdateRequest) → Kept (update_schedule cron now body id u s)
    unfolding update_schedule
    update-Kept now body =
        on_found id u s rest Kept (λ exc. refl)
          (λ c h.
            planned c h (replanned cron now body.cron_expression (renamed cron body.name c)) refl)
      where
        rest : Schedule → Action Session Schedule
        rest c = do
          v ← lift (replanned cron now body.cron_expression (renamed cron body.name c))
          write (save_schedule (with_rest cron body v))
          pure (with_rest cron body v)

        planned :
            (c : Schedule)
            → or_raise schedule_not_found
                (scalar_one_or_none (select (owned_schedule id u) s.live.schedules))
              ≡ ok c
            → (r : Result Schedule)
            → replanned cron now body.cron_expression (renamed cron body.name c) ≡ r
            → Kept (rest c s)
        planned c h (err exc) k = rw k refl
        planned c h (ok v) k =
            let (same, owner) =
              replanned-id cron now body.cron_expression (renamed cron body.name c) v k in
            let (key, mine) = find_schedule-id id u s c h in
            rw k (
              subst
                (λ (i : ℕ).
                  select (λ x. not (x.owner_id == u.id))
                    (update_where (λ x. x.id == i) (λ _. with_rest cron body v) s.live.schedules)
                  ≡ others u s.live)
                (sym (same ∙ key))
                (put_others id u (with_rest cron body v) s.live.schedules (key_owned c h)
                  (owner ∙ mine)))

    -- No request of a user changes a schedule of another: where the id is that of at most one row,
    -- changing it and deleting it leave the schedules of all other users as they are, in their order,
    -- whether the request succeeds or raises.
    pub schedules_of_others :
        (now : ℕ) (body : ScheduleUpdateRequest)
        → (others u (update_schedule cron now body id u s).1.live ≡ others u s.live)
          × (others u (delete_schedule id u s).1.live ≡ others u s.live)
    schedules_of_others now body = (update-Kept now body, delete-Kept)
