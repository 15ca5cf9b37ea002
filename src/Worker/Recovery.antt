-- ===== src/Worker/Recovery.antt =====
-- `_recover_stale_running_executions`: which executions it closes, and how.
use py_faa_s.Prelude.{
  ℕ, suc, ◌+◌, ◌-◌, ◌*◌, ◌/◌, ◌≤◌, ◌≡◌, refl, inl, inr, Option, none, some, List, [], ◌∷◌, ◌++◌,
  arith, Option-cases,
}
use py_faa_s.Config.{Settings}
use py_faa_s.Models.{running, failed, Execution, ExecutionLog, ok}
use py_faa_s.Session.{Database, get_db_context}
use py_faa_s.Worker.{recover_row, recover_rows, Recovered, add_recovered, stale_log, recover}

module _ (settings : Settings) (now : ℕ) where
  -- The execution runs since `started`, and twice its timeout (of a second at least) and the grace
  -- have passed since. Timeouts are seconds, times microseconds.
  pub record IsOverdue (e : Execution) (started : ℕ) : Type 0 where
    pub runs : e.status ≡ running
    pub since : e.started_at ≡ some started
    pub second : started + (2 + settings.worker_stale_timeout_grace) * 1000000 ≤ now
    pub twice : started + (e.timeout * 2 + settings.worker_stale_timeout_grace) * 1000000 ≤ now

  -- The row of a recovered execution.
  abbrev pub closed_row : Execution → ℕ → Execution
  closed_row e started = record e {
    status = failed;
    completed_at = some now;
    failure_kind = some "infra";
    error_message = some "Worker did not report completion before stale recovery deadline";
    duration_ms = some ((now - started) / 1000);
  }

  -- A sweep of the table: an overdue row is closed, logged and counted, any other left alone.
  pub data Sweeps : List Execution → Recovered → Type 0 where
    done : Sweeps [] ([], [], 0)
    pass :
        {e : Execution} {es rows : List Execution} {logs : List ExecutionLog} {n : ℕ}
        → ¬ ((started : ℕ) × IsOverdue e started)
        → Sweeps es (rows, logs, n)
        → Sweeps (e ∷ es) (e ∷ rows, logs, n)
    close :
        {e : Execution} {es rows : List Execution} {logs : List ExecutionLog} {n : ℕ}
        → (started : ℕ) → IsOverdue e started
        → Sweeps es (rows, logs, n)
        → Sweeps (e ∷ es) (closed_row e started ∷ rows, stale_log e.id ∷ logs, suc n)

  recover_row-none :
      (e : Execution) (started : ℕ) → recover_row settings now e ≡ none → ¬ IsOverdue e started
  unfolding recover_row
  recover_row-none e started h o = ground (arith, o.runs, o.since, o.second, o.twice)

  recover_row-some :
      (e e' : Execution)
      → recover_row settings now e ≡ some e'
      → (started : ℕ) × IsOverdue e started × (e' ≡ closed_row e started)
  unfolding recover_row
  recover_row-some e e' h = elim (Option-cases e.started_at) [
    | inl never ↦ absurd (ground arith)
    | inr (started, since) ↦ (started, ground arith, ground arith)
  ]

  -- The recovery loop closes exactly the overdue executions, and counts and logs each of them once.
  pub recover_rows-Sweeps : (es : List Execution) → Sweeps es (recover_rows settings now es)
  unfolding recover_rows
  recover_rows-Sweeps [] = done
  recover_rows-Sweeps (e ∷ es) = step (recover_row settings now e) refl (recover_rows-Sweeps es)
    where
      step :
          (o : Option Execution)
          → recover_row settings now e ≡ o
          → Sweeps es (recover_rows settings now es)
          → Sweeps (e ∷ es) (add_recovered e o (recover_rows settings now es))
      step none h rest = pass (λ o. recover_row-none e o.0 h o.1) rest
      step (some e') h rest =
          let (started, overdue, same) = recover_row-some e e' h in
          rw same (close started overdue rest)

-- A recovery session commits the sweep of the table with the new log rows, and returns the number
-- of executions that it closed. Nothing else in the database changes.
pub recover-Sweeps :
    (settings : Settings) (now : ℕ) (db : Database)
    → (swept : Recovered) × Sweeps settings now db.executions swept
      × (get_db_context (recover settings now) db
          ≡ (ok swept.2, record db { executions = swept.0; logs = db.logs ++ swept.1 }))
unfolding get_db_context recover
recover-Sweeps settings now db =
    (recover_rows settings now db.executions, recover_rows-Sweeps settings now db.executions, refl)
