-- ===== src/Ephemeral/Limits.antt =====
-- What the limits of ephemeral executions guarantee.
use py_faa_s.Prelude.{
  ℕ, ◌+◌, leb, ◌&&◌, ◌||◌, not, String, ◌≡◌, refl, ◌≢◌, ap, ◌≤◌, ◌<◌, ◌⊎◌, inl, inr, Bool, true,
  false, some, List, [], ◌∷◌, ◌++◌, arith, Bool-cases, All, count_where, if◌then◌else◌,
}
use py_faa_s.Config.{Settings}
use py_faa_s.Models.{queued, Execution, Error, Result, ok, err}
use py_faa_s.Session.{Database, Session, with_db, add_execution}
use py_faa_s.Executions.{queue_execution, enqueue_failed}
use py_faa_s.Executions.Trigger.{Queued, accepted, refused, queue_execution-Queued}
use py_faa_s.Keys.{ApiKeyPrincipal}
use py_faa_s.Ephemeral.{
  Redis, EphemeralExecutionRequest, active_count, is_counted, new_ephemeral, ephemeral_job,
  concurrency_exceeded, gate_closed, EphemeralJob, enforce_rate, enforce_concurrency,
  enforce_ephemeral_gate, admit, execute_ephemeral,
}

count_where-append_one :
    {A : Type 0} (p : A → Bool) (xs : List A) (x : A)
    → count_where p (xs ++ x ∷ []) ≡ count_where p xs + (if p x then 1 else 0)
count_where-append_one p [] x = ground arith
count_where-append_one p (y ∷ ys) x = ground (arith, count_where-append_one p ys x)

module _ (str : ℕ → String) (show : Error → String) (redis : Redis) (settings : Settings)
    (minute : ℕ) (principal : ApiKeyPrincipal) where
  open redis use {State, enqueue}

  concurrency_session :
      (s : Session)
      → ((exc : Error) × (enforce_concurrency str show redis settings principal.key.id s
            ≡ (err exc, s)))
        ⊎ ((enforce_concurrency str show redis settings principal.key.id s ≡ (ok tt, s))
            × (active_count principal.key.id s.live < settings.ephemeral_concurrency_limit))
  unfolding enforce_concurrency
  concurrency_session s =
      elim (Bool-cases
        (leb settings.ephemeral_concurrency_limit (active_count principal.key.id s.live))) [
          | inl full ↦ inl (concurrency_exceeded str show redis settings, ground (arith, full))
          | inr room ↦ inr (ground (arith, room), ground (arith, room))
        ]

  -- The checks leave the session as it is, and let through only what is below the concurrency limit.
  admit_session :
      (s : Session) (o : State)
      → (o' : State) × (((exc : Error) × (admit str show redis settings minute principal (s, o)
              ≡ (err exc, (s, o'))))
          ⊎ ((admit str show redis settings minute principal (s, o) ≡ (ok tt, (s, o')))
              × (active_count principal.key.id s.live < settings.ephemeral_concurrency_limit)
              × ((settings.sandbox_enabled || settings.ephemeral_local_execution_enabled) ≡ true)))
  unfolding admit enforce_ephemeral_gate
  admit_session s o =
      elim (Bool-cases
        (not settings.sandbox_enabled && not settings.ephemeral_local_execution_enabled)) [
          | inl closed ↦ (o, inl (gate_closed, ground (arith, closed)))
          | inr open_gate ↦
              rated (enforce_rate str show redis settings principal.key.id minute o) refl open_gate
        ]
    where
      rated :
          (r : Result (Unit {0}) × State)
          → enforce_rate str show redis settings principal.key.id minute o ≡ r
          → (not settings.sandbox_enabled && not settings.ephemeral_local_execution_enabled) ≡ false
          → (o' : State) × (((exc : Error) × (admit str show redis settings minute principal (s, o)
                  ≡ (err exc, (s, o'))))
              ⊎ ((admit str show redis settings minute principal (s, o) ≡ (ok tt, (s, o')))
                  × (active_count principal.key.id s.live < settings.ephemeral_concurrency_limit)
                  × ((settings.sandbox_enabled || settings.ephemeral_local_execution_enabled)
                      ≡ true)))
      rated (err exc, o') h gate = (o', inl (exc, ground (arith, h, gate)))
      rated (ok _, o') h gate = elim (concurrency_session s) [
        | inl (exc, full) ↦ (o', inl (exc, ground (arith, h, gate, full)))
        | inr (passes, room) ↦
            (o', inr (ground (arith, h, gate, passes), room, ground (arith, gate)))
      ]

  -- How a request with raw code ends.
  pub data Runs (id now : ℕ) (body : EphemeralExecutionRequest) (db : Database) (o : State)
      (end : Result Execution × Database × State) : Type 0 where
    turned_away : (exc : Error) (o' : State) → end ≡ (err exc, db, o') → Runs id now body db o end
    taken :
        (o' : State)
        → active_count principal.key.id db < settings.ephemeral_concurrency_limit
        → (settings.sandbox_enabled || settings.ephemeral_local_execution_enabled) ≡ true
        → (let e = new_ephemeral id now body principal in
            (e.id ≡ id)
            × (e.status ≡ queued)
            × (e.execution_type ≡ "ephemeral")
            × (e.triggered_by ≡ some principal.user.id)
            × (e.api_key_id ≡ some principal.key.id))
        → Queued show enqueue
            (new_ephemeral id now body principal)
            (ephemeral_job id body)
            db
            o'
            end
        → Runs id now body db o end

  -- A request with raw code and a fresh id is either turned away, with the database as it was; or a
  -- sandbox or local execution is enabled, the key has fewer active executions than the limit, and
  -- one execution is added: queued, if the queue took its job, and failed, if it raised.
  pub execute_ephemeral-Runs :
      (id now : ℕ) (body : EphemeralExecutionRequest) (db : Database) (o : State)
      → All (λ x. x.id ≢ id) db.executions
      → Runs id now body db o
          (with_db (execute_ephemeral str show redis settings id now minute body principal) (db, o))
  unfolding execute_ephemeral
  execute_ephemeral-Runs id now body db o new =
      let (o', ends) = admit_session opened o in
      elim ends [
        | inl (exc, fails) ↦ turned_away exc o' (ground (arith, fails))
        | inr (passes, room, gate) ↦
            let whole : with_db
                  (execute_ephemeral str show redis settings id now minute body principal) (db, o)
                ≡ with_db (queue_execution show enqueue e job) (db, o') =
              ground (arith, passes) in
            taken o' room gate (refl, refl, refl, refl, refl)
              (rw whole (queue_execution-Queued show enqueue e job db o' new))
      ]
    where
      opened : Session
      opened = record { live = db; saved = db }

      e : Execution
      e = new_ephemeral id now body principal

      job : EphemeralJob
      job = ephemeral_job id body

  -- A request with raw code and a fresh id never takes a key over its limit of active executions.
  pub execute_ephemeral-active_count :
      (id now : ℕ) (body : EphemeralExecutionRequest) (db : Database) (o : State)
      → All (λ x. x.id ≢ id) db.executions
      → active_count principal.key.id db ≤ settings.ephemeral_concurrency_limit
      → active_count principal.key.id
          (with_db
            (execute_ephemeral str show redis settings id now minute body principal)
            (db, o)).1
        ≤ settings.ephemeral_concurrency_limit
  execute_ephemeral-active_count id now body db o new h =
      elim (execute_ephemeral-Runs id now body db o new) [
        | turned_away exc o' end ↦ omega (arith, ap (λ x. active_count principal.key.id x.1) end, h)
        | taken o' room gate _ (accepted o'' sent end) ↦
            below e (ap (λ x. active_count principal.key.id x.1) end) room
        | taken o' room gate _ (refused exc o'' sent end) ↦
            below (enqueue_failed show exc e) (ap (λ x. active_count principal.key.id x.1) end) room
      ]
    where
      e : Execution
      e = new_ephemeral id now body principal

      below :
          {n : ℕ} (row : Execution)
          → n ≡ active_count principal.key.id (add_execution row db)
          → active_count principal.key.id db < settings.ephemeral_concurrency_limit
          → n ≤ settings.ephemeral_concurrency_limit
      below row same room = ground (
        arith,
        same,
        room,
        count_where-append_one (is_counted principal.key.id) db.executions row,
      )
