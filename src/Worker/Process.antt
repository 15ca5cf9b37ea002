-- ===== src/Worker/Process.antt =====
-- `_process_job` as a whole: what its two sessions do to the database, and that a job that starts
-- is closed however its sandbox ends.
use py_faa_s.Prelude.{
  ℕ, ◌≡◌, refl, ◌≢◌, ◌⊎◌, inl, inr, true, false, some, [], ◌∷◌, map, arith, String, All, ◌∙◌, ap,
  if◌then◌else◌,
}
use py_faa_s.Prelude.Rows.{with_key-put_self, All-with_key}
use py_faa_s.Models.{queued, running, status_eq, Execution, ok}
use py_faa_s.Models.Lifecycle.{is_terminal}
use py_faa_s.Session.{Database, get_db_context, save_execution}
use py_faa_s.Worker.{
  SandboxResult, Run, select_execution, claim, finish, finish_row, log_rows, add_logs, process_job,
  second_session, sandbox_result,
}
use py_faa_s.Worker.Rows.{
  status-finish_row, status-finish_row_ne, id-finish_row, new_status-is_terminal,
}

-- The row of a claimed execution.
abbrev pub started_row : String → ℕ → Execution → Execution
started_row worker_id now e = record e {
  status = running;
  started_at = some now;
  worker_id = some worker_id;
}

-- A queued execution is claimed and changed as shown; any other is left alone with the database.
pub claim_found :
    (worker_id : String) (now id : ℕ) (db : Database) (e : Execution)
    → select_execution id db ≡ e ∷ []
    → get_db_context (claim worker_id now id) db ≡ (
        if status_eq e.status queued
        then (ok true, save_execution (started_row worker_id now e) db)
        else (ok false, db))
unfolding get_db_context claim
claim_found worker_id now id db e found = ground arith

pub claim_missing :
    (worker_id : String) (now id : ℕ) (db : Database)
    → select_execution id db ≡ []
    → get_db_context (claim worker_id now id) db ≡ (ok false, db)
unfolding get_db_context claim
claim_missing worker_id now id db missing = ground arith

pub finish_found_lem :
    (r : SandboxResult) (elapsed now id : ℕ) (db : Database) (e : Execution)
    → select_execution id db ≡ e ∷ []
    → get_db_context (finish r elapsed now id) db
      ≡ (ok tt, add_logs (log_rows e.id 0 r.logs) (save_execution (finish_row r elapsed now e) db))
unfolding get_db_context finish
finish_found_lem r elapsed now id db e found = rw found

-- The row that a session of the worker writes is found again, alone.
select-save :
    (v : Execution) (id : ℕ) (db : Database) (e : Execution)
    → v.id ≡ id
    → select_execution id db ≡ e ∷ []
    → select_execution id (save_execution v db) ≡ v ∷ []
select-save v id db e same found = rw (← same) (
    with_key-put_self (λ (x : Execution). x.id) v db.executions
    ∙ ap (map (λ (_ : Execution). v)) (rw (← same) at found))

found_id : (id : ℕ) (db : Database) (e : Execution) → select_execution id db ≡ e ∷ [] → e.id ≡ id
found_id id db e found = (rw found at (All-with_key (λ (x : Execution). x.id) id db.executions)).0

finish_row-is_terminal :
    (r : SandboxResult) (elapsed now : ℕ) (e : Execution)
    → (e.status ≡ running) ⊎ (is_terminal e.status ≡ true)
    → is_terminal (finish_row r elapsed now e).status ≡ true
finish_row-is_terminal r elapsed now e (inl h) =
    rw (status-finish_row r elapsed now e h) (new_status-is_terminal r)
finish_row-is_terminal r elapsed now e (inr h) = rw (status-finish_row_ne r elapsed now e h) h

-- `_process_job` on a queued execution: if, when the sandbox is done, the execution is still running
-- or somebody has closed it, the call returns and leaves the execution in a terminal status, however
-- the sandbox ended.
pub process_job_closes :
    (worker_id : String) (run : Run) (id : ℕ) (db : Database) (e e' : Execution)
    → select_execution id db ≡ e ∷ []
    → e.status ≡ queued
    → select_execution id
        (run.meanwhile (save_execution (started_row worker_id run.started_at e) db))
      ≡ e' ∷ []
    → (e'.status ≡ running) ⊎ (is_terminal e'.status ≡ true)
    → let (r, after) = process_job worker_id run id db in
      (r ≡ ok tt)
      × (select_execution id after
          ≡ finish_row
              (sandbox_result run.elapsed_ms run.outcome)
              run.elapsed_ms
              run.completed_at
              e'
            ∷ [])
      × All (λ x. is_terminal x.status ≡ true) (select_execution id after)
unfolding process_job
process_job_closes worker_id run id db e e' found q found' ends =
    rw (whole, after)
      (refl, refl, (finish_row-is_terminal result run.elapsed_ms run.completed_at e' ends, tt))
  where
    result : SandboxResult
    result = sandbox_result run.elapsed_ms run.outcome

    during : Database
    during = run.meanwhile (save_execution (started_row worker_id run.started_at e) db)

    row : Execution
    row = finish_row result run.elapsed_ms run.completed_at e'

    after : select_execution id (save_execution row during) ≡ row ∷ []
    after =
        select-save row id during e'
          (id-finish_row result run.elapsed_ms run.completed_at e' ∙ found_id id during e' found')
          found'

    claimed :
        get_db_context (claim worker_id run.started_at id) db
        ≡ (ok true, save_execution (started_row worker_id run.started_at e) db)
    claimed = claim_found worker_id run.started_at id db e found ∙ rw q

    whole :
        process_job worker_id run id db
        ≡ (ok tt, add_logs (log_rows e'.id 0 result.logs) (save_execution row during))
    whole =
        ap (second_session run id) claimed
        ∙ finish_found_lem result run.elapsed_ms run.completed_at id during e' found'

-- A job whose execution is not queued, or not there, runs nothing: the call returns, and the
-- database is as it was.
pub process_job_skips :
    (worker_id : String) (run : Run) (id : ℕ) (db : Database) (e : Execution)
    → (select_execution id db ≡ []) ⊎ ((select_execution id db ≡ e ∷ []) × (e.status ≢ queued))
    → process_job worker_id run id db ≡ (ok tt, db)
unfolding process_job
process_job_skips worker_id run id db e (inl missing) =
    rw (claim_missing worker_id run.started_at id db missing)
process_job_skips worker_id run id db e (inr (found, other)) =
    rw (claim_found worker_id run.started_at id db e found) (ground arith)
