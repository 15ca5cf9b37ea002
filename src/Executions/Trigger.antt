-- ===== src/Executions/Trigger.antt =====
-- What `trigger_execution` leaves in the database and on the queue, whatever the queue does.
use py_faa_s.Prelude.{
  ℕ, Option, some, List, String, str_append, ◌≡◌, true, All-select, refl, ◌≢◌, [], ◌∷◌, ◌++◌, arith,
  select, All,
}
use py_faa_s.Prelude.Rows.{put, put-append_new}
use py_faa_s.Models.{
  queued, failed, User, Function, FunctionVersion, Execution, Error, Result, ok, err,
}
use py_faa_s.Session.Reads.{Reads, Reads-bind, Reads-query, Reads-lift}
use py_faa_s.Session.{
  Database, Session, scalar_one_or_none, or_raise, Action, get_db, with_db, add_execution,
}
use py_faa_s.Executions.{
  ExecutionTriggerRequest, Job, find_executable, no_executable_version, trigger_execution,
  queue_execution, new_execution, new_job, enqueue_failed,
}
use py_faa_s.Routing.Share.{choose-Reads}
use py_faa_s.Functions.{owned, function_not_found}

pub find_executable-Reads :
    (id : ℕ) (explicit : Option ℕ) (draw : ℕ) (u : User)
    → Reads (find_executable id explicit draw u)
unfolding find_executable
find_executable-Reads id explicit draw u =
    Reads-bind (Reads-query (λ db. select (owned id u) db.functions)) λ rows.
      Reads-bind (Reads-lift (or_raise function_not_found (scalar_one_or_none rows))) λ fn.
        Reads-bind (choose-Reads fn explicit draw) λ chosen.
          Reads-bind (Reads-lift (or_raise no_executable_version (ok chosen)))
            λ version. Reads-lift (ok (fn, version))

-- What a user may run is a function of their own.
find_executable-owned :
    (id : ℕ) (explicit : Option ℕ) (draw : ℕ) (u : User) (s : Session) (fn : Function)
    (version : FunctionVersion)
    → (find_executable id explicit draw u s).0 ≡ ok (fn, version)
    → (fn.id ≡ id) × (fn.owner_id ≡ u.id)
unfolding find_executable
find_executable-owned id explicit draw u s fn version h =
    found (select (owned id u) s.live.functions) refl
  where
    found :
        (l : List Function)
        → select (owned id u) s.live.functions ≡ l
        → (fn.id ≡ id) × (fn.owner_id ≡ u.id)
    found [] e = absurd (ground (arith, e, h))
    found (x ∷ y ∷ l) e = absurd (ground (arith, e, h))
    found (x ∷ []) e =
        let of_user : owned id u x ≡ true =
          (rw e at (All-select (owned id u) s.live.functions)).0 in
        let same : x ≡ fn = ground (arith, e, h) in
        let mine : owned id u fn ≡ true = rw (← same) of_user in
        (ground (arith, mine), ground (arith, mine))

module _ (show : Error → String) {Q J : Type 0} (enqueue : ℕ → J → Action Q (Unit {0})) where
  -- How a queue takes the job of a new execution, and what is in the table then.
  pub data Queued (e : Execution) (job : J) (db : Database) (q : Q)
      (end : Result Execution × Database × Q) : Type 0 where
    accepted :
        (q' : Q)
        → enqueue e.id job q ≡ (ok tt, q')
        → end ≡ (ok e, add_execution e db, q')
        → Queued e job db q end
    refused :
        (exc : Error) (q' : Q)
        → enqueue e.id job q ≡ (err exc, q')
        → (let row : Execution = record e {
          status = failed;
          error_message = some (str_append "Failed to enqueue: " (show exc));
          failure_kind = some "queue";
        } in
            end ≡ (ok row, add_execution row db, q'))
        → Queued e job db q end

  pub queue_execution-Queued :
      (e : Execution) (job : J) (db : Database) (q : Q)
      → All (λ x. x.id ≢ e.id) db.executions
      → Queued e job db q (with_db (queue_execution show enqueue e job) (db, q))
  unfolding queue_execution
  queue_execution-Queued e job db q new = sent (enqueue e.id job q) refl
    where
      sent :
          (r : Result (Unit {0}) × Q)
          → enqueue e.id job q ≡ r
          → Queued e job db q (with_db (queue_execution show enqueue e job) (db, q))
      sent (ok u, q') h = accepted q' h (ground (arith, h))
      sent (err exc, q') h =
          let last : put (λ (x : Execution). x.id) (enqueue_failed show exc e)
                (db.executions ++ e ∷ [])
              ≡ db.executions ++ enqueue_failed show exc e ∷ [] =
            put-append_new (λ (x : Execution). x.id) e (enqueue_failed show exc e) db.executions
              refl new in
          refused exc q' h (ground (arith, h, last))

module _ (show : Error → String) {Q : Type 0} (enqueue : ℕ → Job → Action Q (Unit {0})) where
  -- A queued execution of this version that the user has triggered.
  pub record IsFor (e : Execution) (id : ℕ) (u : User) (fn : Function) (version : FunctionVersion)
      : Type 0 where
    pub fresh : e.id ≡ id
    pub waits : e.status ≡ queued
    pub by : e.triggered_by ≡ some u.id
    pub of_function : e.function_id ≡ some fn.id
    pub of_version : e.function_version_id ≡ some version.id

  -- The two ways in which a request for `function_id` ends.
  pub data Triggered (id now draw function_id : ℕ) (body : ExecutionTriggerRequest) (u : User)
      (db : Database) (q : Q) (end : Result Execution × Database × Q) : Type 0 where
    nothing_to_run :
        (exc : Error)
        → (get_db (find_executable function_id body.version_id draw u) db).0 ≡ err exc
        → end ≡ (err exc, db, q)
        → Triggered id now draw function_id body u db q end
    started :
        (fn : Function) (version : FunctionVersion)
        → (get_db (find_executable function_id body.version_id draw u) db).0 ≡ ok (fn, version)
        → (fn.id ≡ function_id) × (fn.owner_id ≡ u.id)
        → IsFor (new_execution id now body u fn version) id u fn version
        → Queued show enqueue
            (new_execution id now body u fn version)
            (new_job (new_execution id now body u fn version) body fn version)
            db
            q
            end
        → Triggered id now draw function_id body u db q end

  -- Triggering with a fresh id either finds nothing to run, raises, and leaves the database and the
  -- queue as they are; or it finds a function of the user with a version, and commits one new
  -- execution: queued, if the queue took its job, and failed with the queue's error, if it raised.
  pub trigger_execution-Triggered :
      (id now draw function_id : ℕ) (body : ExecutionTriggerRequest) (u : User) (db : Database)
      (q : Q)
      → All (λ x. x.id ≢ id) db.executions
      → Triggered id now draw function_id body u db q
          (with_db (trigger_execution show enqueue id now draw function_id body u) (db, q))
  unfolding trigger_execution get_db
  trigger_execution-Triggered id now draw function_id body u db q new =
      chosen (find_executable function_id body.version_id draw u opened) refl
        ((find_executable-Reads function_id body.version_id draw u).same opened)
    where
      opened : Session
      opened = record { live = db; saved = db }

      chosen :
          (r : Result (Function × FunctionVersion) × Session)
          → find_executable function_id body.version_id draw u opened ≡ r
          → (find_executable function_id body.version_id draw u opened).1 ≡ opened
          → Triggered id now draw function_id body u db q
              (with_db (trigger_execution show enqueue id now draw function_id body u) (db, q))
      chosen (err exc, s) h same = nothing_to_run exc (ground (arith, h)) (ground (arith, h, same))
      chosen (ok (fn, version), s) h same =
          started fn version (ground (arith, h))
            (find_executable-owned function_id body.version_id draw u opened fn version
              (ground (arith, h)))
            (record {
              fresh = refl;
              waits = refl;
              by = refl;
              of_function = refl;
              of_version = refl;
            })
            (rw whole (queue_execution-Queued show enqueue e job db q new))
        where
          e : Execution
          e = new_execution id now body u fn version

          job : Job
          job = new_job e body fn version

          at_start : s ≡ opened
          at_start = ground (arith, h, same)

          whole :
              with_db (trigger_execution show enqueue id now draw function_id body u) (db, q)
              ≡ with_db (queue_execution show enqueue e job) (db, q)
          whole = ground (arith, h, at_start)
