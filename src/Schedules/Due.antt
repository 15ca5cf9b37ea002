-- ===== src/Schedules/Due.antt =====
-- When the scheduler finds a schedule due after a handler has made, stopped or deleted it.
use mathlib.Core.Path.{subst}
use mathlib.Core.List.{Perm, perm_middle, append-nil}
use mathlib.Core.List.Perm
use py_faa_s.Prelude.{
  ℕ, leb, ◌==◌, ◌<◌, ◌≡◌, ◌≢◌, refl, sym, ◌∙◌, Bool, true, false, some, List, [], ◌∷◌, ◌++◌, select,
  All, arith, if◌then◌else◌, delete_where, update_where,
}
use py_faa_s.Models.{ScheduleStatus, User, Function, Schedule, Error, Result, ok, err}
use py_faa_s.Session.{
  Action, write, lift, pure, ◌>>◌, save_schedule, ◌>>=◌, Session, scalar_one_or_none, or_raise,
}
use py_faa_s.Functions.{function_not_found, owned}
use py_faa_s.Scheduler.{Cron, due_schedules, is_due, is_active_schedule}
use py_faa_s.Schedules.Found.{find_schedule-id, on_found, replanned-id}
use py_faa_s.Schedules.{
  ScheduleCreateRequest, ScheduleUpdateRequest, create_schedule, update_schedule, delete_schedule,
  remove_schedule, schedule_not_found, owned_schedule, replanned, renamed, with_rest,
}

module _ {A : Type 0} where
  select-append : (p : A → Bool) (xs ys : List A) → select p (xs ++ ys) ≡ select p xs ++ select p ys
  select-append p [] ys = refl
  select-append p (x ∷ xs) ys = ground (arith, select-append p xs ys)

with_one :
    {A : Type 0} (c : A) (b : Bool) (xs : List A)
    → Perm (xs ++ (if b then c ∷ [] else [])) ((if b then c ∷ [] else []) ++ xs)
with_one {A} c true xs =
    let moved : Perm (xs ++ c ∷ []) (c ∷ (xs ++ [])) = perm_middle xs [] in
    rw (append-nil xs) at moved
with_one c false xs = rw (append-nil xs) (Perm.refl xs)

-- What creating a schedule comes to, and what the scheduler sees of it at time `t`.
pub data Plans (now t : ℕ) (s : Session) : Result Schedule × Session → Type 0 where
  planned :
      (c : Schedule) (next : ℕ) (s' : Session)
      → c.next_run_at ≡ some next
      → now < next
      → Perm
          (due_schedules t s'.live)
          ((if leb next t then c ∷ [] else []) ++ due_schedules t s.live)
      → Plans now t s (ok c, s')
  rejected : (exc : Error) → Plans now t s (err exc, s)

module _ (cron : Cron) where
  -- A schedule that is created gets its first run after the time of the request, and from then on, not
  -- before, the scheduler finds it due, in whatever order, with those that are due without it. A request that
  -- raises changes nothing.
  pub create_schedule-Plans :
      (id now : ℕ) (body : ScheduleCreateRequest) (function_id : ℕ) (current_user : User) (t : ℕ)
      (s : Session)
      → Plans now t s (create_schedule cron id now body function_id current_user s)
  unfolding create_schedule
  create_schedule-Plans id now body function_id current_user t s =
      found
        (or_raise function_not_found
          (scalar_one_or_none (select (owned function_id current_user) s.live.functions)))
        (cron.get_next body.cron_expression now) refl refl
    where
      found :
          (r : Result Function) (n : Result ℕ)
          → or_raise function_not_found
              (scalar_one_or_none (select (owned function_id current_user) s.live.functions))
            ≡ r
          → cron.get_next body.cron_expression now ≡ n
          → Plans now t s (create_schedule cron id now body function_id current_user s)
      found (err exc) n h k = rw h (rejected exc)
      found (ok fn) (err exc) h k = rw (h, k) (rejected exc)
      found (ok fn) (ok next) h k =
          rw (h, k)
            (planned _ next _ refl (cron.later body.cron_expression now next k) (
              rw (select-append (is_due t) s.live.schedules _)
                (with_one _ (leb next t) (select (is_due t) s.live.schedules))))

-- No row with this id is due.
abbrev NoneDue : ℕ → ℕ → List Schedule → Type 0
NoneDue t id rows = All (λ c. c.id ≢ id) (select (is_due t) rows)

put-NoneDue :
    (t : ℕ) (v : Schedule) (rows : List Schedule)
    → is_active_schedule v.status ≡ false
    → NoneDue t v.id (update_where (λ c. c.id == v.id) (λ _. v) rows)
put-NoneDue t v [] h = tt
put-NoneDue t v (c ∷ rows) h = ground (arith, put-NoneDue t v rows h)

delete-NoneDue :
    (t id : ℕ) (rows : List Schedule) → NoneDue t id (delete_where (λ c. c.id == id) rows)
delete-NoneDue t id [] = tt
delete-NoneDue t id (c ∷ rows) = ground (arith, delete-NoneDue t id rows)

-- The scheduler finds no schedule with this id due at time `t`, or the handler has raised and changed
-- nothing.
pub data Stops {A : Type 0} (t id : ℕ) (s : Session) : Result A × Session → Type 0 where
  stopped : (a : A) (s' : Session) → NoneDue t id s'.live.schedules → Stops t id s (ok a, s')
  rejected : (exc : Error) → Stops t id s (err exc, s)

-- A schedule that its owner deletes is due at no time, whatever its plan was.
pub delete_schedule-Stops :
    (id : ℕ) (u : User) (t : ℕ) (s : Session) → Stops t id s (delete_schedule id u s)
unfolding delete_schedule
delete_schedule-Stops id u t s =
    on_found id u s (λ c. write (remove_schedule c.id)) (Stops t id s) rejected
      (λ c h.
        stopped tt (record s { live = remove_schedule c.id s.live })
          (subst (λ (k : ℕ). NoneDue t id (delete_where (λ x. x.id == k) s.live.schedules))
            (sym (find_schedule-id id u s c h).0) (delete-NoneDue t id s.live.schedules)))

module _ (cron : Cron) where
  -- A schedule whose owner sets a status other than `active` is due at no time, whatever else the
  -- request changes.
  pub update_schedule-Stops :
      (now : ℕ) (body : ScheduleUpdateRequest) (status : ScheduleStatus) (id : ℕ) (u : User) (t : ℕ)
      (s : Session)
      → body.status ≡ some status
      → is_active_schedule status ≡ false
      → Stops t id s (update_schedule cron now body id u s)
  unfolding update_schedule
  update_schedule-Stops now body status id u t s hb hs =
      on_found id u s rest (Stops t id s) rejected (λ c h.
        planned c h (replanned cron now body.cron_expression (renamed cron body.name c)) refl)
    where
      rest : Schedule → Action Session Schedule
      rest c = do
        v ← lift (replanned cron now body.cron_expression (renamed cron body.name c))
        write (save_schedule (with_rest cron body v))
        pure (with_rest cron body v)

      planned :
          (c : Schedule)
          → or_raise schedule_not_found
              (scalar_one_or_none (select (owned_schedule id u) s.live.schedules))
            ≡ ok c
          → (r : Result Schedule)
          → replanned cron now body.cron_expression (renamed cron body.name c) ≡ r
          → Stops t id s (rest c s)
      planned c h (err exc) k = rw k (rejected exc)
      planned c h (ok v) k =
          let same : v.id ≡ id =
            (replanned-id cron now body.cron_expression (renamed cron body.name c) v k).0
            ∙ (find_schedule-id id u s c h).0 in
          let still : is_active_schedule (with_rest cron body v).status ≡ false = rw hb hs in
          rw k (
            stopped (with_rest cron body v)
              (record s { live = save_schedule (with_rest cron body v) s.live })
              (subst
                (λ (i : ℕ).
                  NoneDue t i (
                    update_where (λ x. x.id == v.id) (λ _. with_rest cron body v) s.live.schedules))
                same (put-NoneDue t (with_rest cron body v) s.live.schedules still)))
