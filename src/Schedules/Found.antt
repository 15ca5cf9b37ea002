-- ===== src/Schedules/Found.antt =====
-- The schedule that the handlers find, and what they do next.
use mathlib.Core.Path.{subst}
use py_faa_s.Prelude.{String, ℕ, ◌≡◌, refl, ap, sym, true, Option, none, some, List, select, arith}
use py_faa_s.Models.{User, Schedule, Error, Result, ok, err}
use py_faa_s.Session.{Action, ◌>>=◌, Session, scalar_one_or_none, or_raise, scalar-select}
use py_faa_s.Scheduler.{Cron}
use py_faa_s.Schedules.{find_schedule, schedule_not_found, owned_schedule, replanned}

pub find_schedule-id :
    (id : ℕ) (u : User) (s : Session) (c : Schedule)
    → or_raise schedule_not_found
        (scalar_one_or_none (select (owned_schedule id u) s.live.schedules))
      ≡ ok c
    → (c.id ≡ id) × (c.owner_id ≡ u.id)
find_schedule-id id u s c h = owned (scalar_one_or_none rows) refl h
  where
    rows : List Schedule
    rows = select (owned_schedule id u) s.live.schedules

    owned :
        (r : Result (Option Schedule))
        → scalar_one_or_none rows ≡ r
        → or_raise schedule_not_found r ≡ ok c
        → (c.id ≡ id) × (c.owner_id ≡ u.id)
    owned (ok none) e k = cc
    owned (ok (some c')) e k = both (scalar-select (owned_schedule id u) s.live.schedules c' e) k
      where
        both :
            owned_schedule id u c' ≡ true
            → or_raise schedule_not_found (ok (some c')) ≡ ok c
            → (c.id ≡ id) × (c.owner_id ≡ u.id)
        both m k' = (ground arith, ground arith)
    owned (err x) e k = cc

pub find_schedule_lem :
    (id : ℕ) (u : User) (s : Session) (r : Result Schedule)
    → or_raise schedule_not_found
        (scalar_one_or_none (select (owned_schedule id u) s.live.schedules))
      ≡ r
    → find_schedule id u s ≡ (r, s)
unfolding find_schedule
find_schedule_lem id u s r h = ap (λ (q : Result Schedule). (q, s)) h

module _ {A B : Type 0} (m : Action Session A) (f : A → Action Session B) (s s' : Session) where
  pub bind-ok : (a : A) → m s ≡ (ok a, s') → (m >>= f) s ≡ f a s'
  bind-ok a e =
      ap
        (λ (r : Result A × Session). elim r.0 as (λ _. Result B × Session) [
          | ok a ↦ f a r.1
          | err x ↦ (err x, r.1)
        ])
        e

  pub bind-err : (exc : Error) → m s ≡ (err exc, s') → (m >>= f) s ≡ (err exc, s')
  bind-err exc e =
      ap
        (λ (r : Result A × Session). elim r.0 as (λ _. Result B × Session) [
          | ok a ↦ f a r.1
          | err x ↦ (err x, r.1)
        ])
        e

module _ {A : Type 0} where
  -- A handler on the found schedule `c`, or the 404.
  pub on_found :
      (id : ℕ) (u : User) (s : Session) (next : Schedule → Action Session A)
      (P : Result A × Session → Type 0)
      → ((exc : Error) → P (err exc, s))
      → ((c : Schedule)
          → or_raise schedule_not_found
              (scalar_one_or_none (select (owned_schedule id u) s.live.schedules))
            ≡ ok c
          → P (next c s))
      → P ((find_schedule id u >>= next) s)
  on_found id u s next P failed found =
      cases
        (or_raise schedule_not_found
          (scalar_one_or_none (select (owned_schedule id u) s.live.schedules)))
        refl
    where
      cases :
          (r : Result Schedule)
          → or_raise schedule_not_found
              (scalar_one_or_none (select (owned_schedule id u) s.live.schedules))
            ≡ r
          → P ((find_schedule id u >>= next) s)
      cases (err exc) h =
          subst P
            (sym
              (bind-err (find_schedule id u) next s s exc (find_schedule_lem id u s (err exc) h)))
            (failed exc)
      cases (ok c) h =
          subst P
            (sym (bind-ok (find_schedule id u) next s s c (find_schedule_lem id u s (ok c) h)))
            (found c h)

module _ (cron : Cron) where
  pub replanned-id :
      (now : ℕ) (expression : Option String) (c v : Schedule)
      → replanned cron now expression c ≡ ok v
      → (v.id ≡ c.id) × (v.owner_id ≡ c.owner_id)
  replanned-id now none c v h = (ground arith, ground arith)
  replanned-id now (some e) c v h = cases (cron.get_next e now) h
    where
      cases :
          (n : Result ℕ)
          → elim n as (λ _. Result Schedule) [
            | err exc ↦ err exc
            | ok t ↦ ok (record c { cron_expression = e; next_run_at = some t })
          ]
            ≡ ok v
          → (v.id ≡ c.id) × (v.owner_id ≡ c.owner_id)
      cases (err exc) k = absurd (cc)
      cases (ok t) k = (ground arith, ground arith)
