-- ===== src/System/Forward.antt =====
-- Each step of the system, and every sequence of steps, moves executions forward only.
use py_faa_s.Prelude.{
  ℕ, String, List, ◌==◌, ◌&&◌, ◌≡◌, refl, ◌∙◌, ◌<◌, ◌⊎◌, inl, inr, true, false, some, [], ◌∷◌,
  arith, select, All-select, sym, Bool-cases,
}
use py_faa_s.Config.{Settings}
use py_faa_s.Models.{ExecutionStatus, queued, failed, cancelled, User, Execution, Result, status_eq}
use py_faa_s.Models.Lifecycle.{rank, is_terminal}
use py_faa_s.Session.{Database, get_db, get_db_context, with_db, Action, save_execution}
use py_faa_s.Functions.Delete.{delete_function}
use py_faa_s.Functions.Removal.{Deletes, delete_function-Deletes, refused, undone, removed}
use py_faa_s.Worker.{SandboxResult, claim, finish, finish_row, recover, select_execution}
use py_faa_s.Worker.Process.{claim_found, claim_missing, finish_found_lem, started_row}
use py_faa_s.Executions.{cancel_execution, is_visible}
use py_faa_s.Executions.Access.{
  seen, unseen, ambiguous, stopped, too_late, cancel_execution-Cancels,
}
use py_faa_s.System.{
  Step, queues, unqueues, claims, finishes, recovers, cancels, deletes, Steps, none_yet, then_one,
}
use py_faa_s.System.Progress.{
  Moves, found_at, Advances, Advances-refl, Advances-trans, Advances-put, Advances-append, found_id,
  recover_rows-Advances, history-Advances,
}

-- The sessions of a worker meet at most one row, or raise.
claim_ambiguous :
    (worker_id : String) (now id : ℕ) (db : Database) (x y : Execution) (es : List Execution)
    → select_execution id db ≡ x ∷ y ∷ es
    → (get_db_context (claim worker_id now id) db).1 ≡ db
unfolding get_db_context claim
claim_ambiguous worker_id now id db x y es found = ground (arith, found)

finish_missing :
    (r : SandboxResult) (elapsed now id : ℕ) (db : Database)
    → select_execution id db ≡ []
    → (get_db_context (finish r elapsed now id) db).1 ≡ db
unfolding get_db_context finish
finish_missing r elapsed now id db missing = ground (arith, missing)

finish_ambiguous :
    (r : SandboxResult) (elapsed now id : ℕ) (db : Database) (x y : Execution) (es : List Execution)
    → select_execution id db ≡ x ∷ y ∷ es
    → (get_db_context (finish r elapsed now id) db).1 ≡ db
unfolding get_db_context finish
finish_ambiguous r elapsed now id db x y es found = ground (arith, found)

-- What replaces the row that a query by id has found.
replaced :
    (id : ℕ) (db : Database) (e v : Execution)
    → select_execution id db ≡ e ∷ []
    → Moves e v
    → Advances db.executions (save_execution v db).executions
replaced id db e v found moves = Advances-put v db.executions λ x found'.
    let here : v.id ≡ id = moves.0 ∙ found_id id e db.executions found in
    let same : e ∷ [] ≡ x ∷ [] = sym found ∙ (rw here at found') in
    let one : e ≡ x = ground (arith, same) in rw (← one) moves

finish_row-Moves :
    (r : SandboxResult) (elapsed now : ℕ) (e : Execution) → Moves e (finish_row r elapsed now e)
unfolding finish_row
finish_row-Moves r elapsed now e = ground arith

claims-Advances :
    (worker_id : String) (now id : ℕ) (db : Database)
    → Advances db.executions (get_db_context (claim worker_id now id) db).1.executions
claims-Advances worker_id now id db = found (select_execution id db) refl
  where
    found :
        (l : List Execution)
        → select_execution id db ≡ l
        → Advances db.executions (get_db_context (claim worker_id now id) db).1.executions
    found [] h = rw (claim_missing worker_id now id db h) (Advances-refl db.executions)
    found (x ∷ y ∷ es) h =
        rw (claim_ambiguous worker_id now id db x y es h) (Advances-refl db.executions)
    found (e ∷ []) h =
        rw (claim_found worker_id now id db e h) (elim (Bool-cases (status_eq e.status queued)) [
          | inl waiting ↦
              rw waiting (replaced id db e (started_row worker_id now e) h (refl, ground arith))
          | inr other ↦ rw other (Advances-refl db.executions)
        ])

finishes-Advances :
    (r : SandboxResult) (elapsed now id : ℕ) (db : Database)
    → Advances db.executions (get_db_context (finish r elapsed now id) db).1.executions
finishes-Advances r elapsed now id db = found (select_execution id db) refl
  where
    found :
        (l : List Execution)
        → select_execution id db ≡ l
        → Advances db.executions (get_db_context (finish r elapsed now id) db).1.executions
    found [] h = rw (finish_missing r elapsed now id db h) (Advances-refl db.executions)
    found (x ∷ y ∷ es) h =
        rw (finish_ambiguous r elapsed now id db x y es h) (Advances-refl db.executions)
    found (e ∷ []) h =
        rw (finish_found_lem r elapsed now id db e h)
          (replaced id db e (finish_row r elapsed now e) h (finish_row-Moves r elapsed now e))

-- An execution that the user sees, alone with its id, is the one that the cancelling request finds.
seen_alone :
    (id : ℕ) (u : User) (db : Database) (e x : Execution) (xs : List Execution)
    → found_at id xs ≡ x ∷ []
    → select (λ y. y.id == id && is_visible db u y) xs ≡ e ∷ []
    → e ≡ x
seen_alone id u db e x xs alone found = ground (arith, alone, found, nested xs)
  where
    nested :
        (ys : List Execution)
        → select (λ y. y.id == id && is_visible db u y) ys
          ≡ select (is_visible db u) (found_at id ys)
    nested [] = refl
    nested (y ∷ ys) = ground (arith, nested ys)

stopped-Moves :
    (id : ℕ) (u : User) (db : Database) (e : Execution)
    → seen id u db ≡ e ∷ []
    → is_terminal e.status ≡ false
    → (x : Execution) → found_at e.id db.executions ≡ x ∷ []
    → Moves x (record e { status = cancelled })
stopped-Moves id u db e found open_status x alone =
    let meets : (e.id == id && is_visible db u e) ≡ true =
      (rw found at (All-select (λ y. y.id == id && is_visible db u y) db.executions)).0 in
    let here : e.id ≡ id = ground arith in
    let one : e ≡ x = seen_alone id u db e x db.executions (rw here at alone) found in
    rw (← one) (refl, inr (ground arith))

recovers-Advances :
    (settings : Settings) (now : ℕ) (db : Database)
    → Advances db.executions (get_db_context (recover settings now) db).1.executions
unfolding get_db_context recover
recovers-Advances settings now db = recover_rows-Advances settings now db.executions

cancels-Advances :
    (id : ℕ) (u : User) (db : Database)
    → Advances db.executions (get_db (cancel_execution id u) db).1.executions
cancels-Advances id u db = elim (cancel_execution-Cancels id u db) [
  | unseen _ end ↦ rw end (Advances-refl db.executions)
  | ambiguous _ _ _ _ end ↦ rw end (Advances-refl db.executions)
  | too_late _ _ _ _ end ↦ rw end (Advances-refl db.executions)
  | stopped e found _ open_status end ↦ rw end (
      Advances-put (record e { status = cancelled }) db.executions
        (stopped-Moves id u db e found open_status))
]

deletes-Advances :
    {O : Type 0} (delete_artifact : String → Action O (Unit {0})) (o : O) (id : ℕ) (u : User)
    (db : Database)
    → Advances db.executions (with_db (delete_function delete_artifact id u) (db, o)).1.executions
deletes-Advances delete_artifact o id u db =
    ended (with_db (delete_function delete_artifact id u) (db, o))
      (delete_function-Deletes delete_artifact id u db o)
  where
    ended :
        (r : Result (Unit {0}) × Database × _)
        → Deletes delete_artifact id u db o r
        → Advances db.executions r.1.executions
    ended r (refused _ _ end) = rw end (Advances-refl db.executions)
    ended r (undone _ _ _ _ _ end) = rw end (Advances-refl db.executions)
    ended r (removed _ db' _ _ _ _ gone end) =
        rw end (history-Advances db.executions db'.executions gone.keeps_history)

Step-Advances : (db db' : Database) → Step db db' → Advances db.executions db'.executions
Step-Advances db _ (queues e waiting new) = Advances-append e db.executions new
Step-Advances db _ (claims worker_id now id) = claims-Advances worker_id now id db
Step-Advances db _ (finishes r elapsed now id) = finishes-Advances r elapsed now id db
Step-Advances db _ (recovers settings now) = recovers-Advances settings now db
Step-Advances db _ (cancels id u) = cancels-Advances id u db
Step-Advances db _ (unqueues e message found waiting) =
    Advances-put
      (record e { status = failed; error_message = some message; failure_kind = some "queue" })
      db.executions
      λ x found'.
        let same : e ∷ [] ≡ x ∷ [] = sym found ∙ found' in
        let one : e ≡ x = ground (arith, same) in rw (← one) (refl, inr (ground (arith, waiting)))
Step-Advances db _ (deletes delete_artifact o id u) = deletes-Advances delete_artifact o id u db

-- New executions, claims, results, the recovery, cancellations and deletions of functions, and the
-- failure of an execution whose job the queue refused and which is still queued then: in any order,
-- an execution that is alone with its id stays so, and has the status that it had or one of a later
-- stage.
pub Steps-Advances : (db db' : Database) → Steps db db' → Advances db.executions db'.executions
Steps-Advances db _ none_yet = Advances-refl db.executions
Steps-Advances db _ (then_one {mid = mid} {last = last} before step) =
    Advances-trans db.executions mid.executions last.executions (Steps-Advances db mid before)
      (Step-Advances mid last step)

-- New executions, claims, results, the recovery, cancellations and deletions of functions, and the
-- failure of an execution whose job the queue refused and which is still queued then: in any order,
-- an execution in a terminal status keeps it.
pub Steps-at_terminal :
    (db db' : Database) (id : ℕ) (e : Execution)
    → Steps db db'
    → select_execution id db ≡ e ∷ []
    → is_terminal e.status ≡ true
    → (e' : Execution) × (select_execution id db' ≡ e' ∷ []) × (e'.status ≡ e.status)
Steps-at_terminal db db' id e steps found ended =
    let (e', found', moves) = (Steps-Advances db db' steps).at id e found in
    (e', found', kept e.status e'.status ended moves.1)
  where
    kept : (a b : ExecutionStatus) → is_terminal a ≡ true → ((b ≡ a) ⊎ (rank a < rank b)) → b ≡ a
    kept a b t h = ground arith
