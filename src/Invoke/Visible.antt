-- ===== src/Invoke/Visible.antt =====
-- What is invoked with a key is found again with it.
use py_faa_s.Prelude.{
  none, ℕ, ◌==◌, ==-refl, ◌&&◌, String, ◌≡◌, refl, ◌≢◌, ◌∙◌, ap, sym, Bool, true, List, [], ◌∷◌,
  ◌++◌, arith, select, All,
}
use py_faa_s.Models.{Json, Function, FunctionVersion, Execution, Error, Result, ok, err}
use py_faa_s.Session.{
  Database, Session, Action, get_db, with_db, add_execution, scalar_one_or_none, or_raise,
}
use py_faa_s.Session.Reads.{Reads, Reads-bind, Reads-query, Reads-lift}
use py_faa_s.Routing.Share.{choose-Reads}
use py_faa_s.Functions.{owned, function_not_found}
use py_faa_s.Executions.{Job, queue_execution, enqueue_failed}
use py_faa_s.Executions.Trigger.{Queued, accepted, refused, queue_execution-Queued}
use py_faa_s.Keys.{ApiKeyPrincipal}
use py_faa_s.Invoke.{
  find_invokable, no_version, invoked_execution, invoked_job, invoke_function, is_visible_to,
  get_invoked_execution,
}

find_invokable-Reads :
    (id draw : ℕ) (principal : ApiKeyPrincipal) → Reads (find_invokable id draw principal)
unfolding find_invokable
find_invokable-Reads id draw principal =
    Reads-bind (Reads-query (λ db. select (owned id principal.user) db.functions)) λ rows.
      Reads-bind (Reads-lift (or_raise function_not_found (scalar_one_or_none rows))) λ fn.
        Reads-bind (choose-Reads fn none draw) λ chosen.
          Reads-bind (Reads-lift (or_raise no_version (ok chosen)))
            λ version. Reads-lift (ok (fn, version))

select_new :
    (p : Execution → Bool) (v : Execution) (xs : List Execution)
    → All (λ x. x.id ≢ v.id) xs
    → p v ≡ true
    → select (λ x. x.id == v.id && p x) (xs ++ v ∷ []) ≡ v ∷ []
select_new p v [] new met = ground (arith, met)
select_new p v (x ∷ xs) new met = ground (arith, select_new p v xs new.1 met, new.0)

module _ (show : Error → String) {Q : Type 0} (enqueue : ℕ → Job → Action Q (Unit {0}))
    (id now draw function_id : ℕ) (payload : Json) (principal : ApiKeyPrincipal) where
  abbrev invoke : Action (Session × Q) Execution
  invoke = invoke_function show enqueue id now draw function_id payload principal

  -- What an invocation that returns has queued.
  invoke-Queued :
      (db : Database) (q : Q) (e : Execution) (db' : Database) (q' : Q)
      → All (λ x. x.id ≢ id) db.executions
      → with_db invoke (db, q) ≡ (ok e, db', q')
      → (fn : Function) × (version : FunctionVersion) × Queued show enqueue
          (invoked_execution id now payload principal fn version)
          (invoked_job id payload fn version)
          db
          q
          (ok e, db', q')
  unfolding invoke_function
  invoke-Queued db q e db' q' new returns =
      chosen (find_invokable function_id draw principal opened) refl
        ((find_invokable-Reads function_id draw principal).same opened)
    where
      opened : Session
      opened = record { live = db; saved = db }

      chosen :
          (r : Result (Function × FunctionVersion) × Session)
          → find_invokable function_id draw principal opened ≡ r
          → (find_invokable function_id draw principal opened).1 ≡ opened
          → (fn : Function) × (version : FunctionVersion) × Queued show enqueue
              (invoked_execution id now payload principal fn version)
              (invoked_job id payload fn version)
              db
              q
              (ok e, db', q')
      chosen (err exc, s) h same = absurd (ground (arith, h, returns))
      chosen (ok (fn, version), s) h same =
          let at_start : s ≡ opened = ground (arith, h, same) in
          let row : Execution = invoked_execution id now payload principal fn version in
          let job : Job = invoked_job id payload fn version in
          let whole : with_db invoke (db, q)
              ≡ with_db (queue_execution show enqueue row job) (db, q) =
            ground (arith, h, at_start) in
          (
            fn,
            version,
            rw (sym returns ∙ whole) (queue_execution-Queued show enqueue row job db q new),
          )

  -- An execution that was invoked with a key and a fresh id is what the same key reads under its id,
  -- whether the queue took the job or not.
  pub get_invoked_execution-invoke_function :
      (db : Database) (q : Q) (e : Execution) (db' : Database) (q' : Q)
      → All (λ x. x.id ≢ id) db.executions
      → with_db invoke (db, q) ≡ (ok e, db', q')
      → get_db (get_invoked_execution id principal) db' ≡ (ok e, db')
  unfolding get_db get_invoked_execution
  get_invoked_execution-invoke_function db q e db' q' new returns =
      let (fn, version, result) = invoke-Queued db q e db' q' new returns in
      elim result [
        | accepted q'' sent end ↦
            found (invoked_execution id now payload principal fn version) refl
              (ground (arith, ==-refl principal.key.id)) (ap (λ x. x.0) end) (ap (λ x. x.1) end)
        | refused exc q'' sent end ↦
            found (enqueue_failed show exc (invoked_execution id now payload principal fn version))
              refl (ground (arith, ==-refl principal.key.id)) (ap (λ x. x.0) end)
              (ap (λ x. x.1) end)
      ]
    where
      found :
          (v : Execution)
          → v.id ≡ id
          → is_visible_to principal v ≡ true
          → ok e ≡ ok v
          → db' ≡ add_execution v db
          → get_db (get_invoked_execution id principal) db' ≡ (ok e, db')
      found v same visible one after =
          let row : select (λ x. x.id == id && is_visible_to principal x) db'.executions ≡ v ∷ [] =
            ap (λ x. select (λ y. y.id == id && is_visible_to principal y) x.executions) after
            ∙ (rw (← same)
                (select_new (is_visible_to principal) v db.executions (rw same new) visible)) in
          ground (arith, row, one)
