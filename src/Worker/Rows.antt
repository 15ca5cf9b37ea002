-- ===== src/Worker/Rows.antt =====
-- What a start, a result and a recovery do to one row.
use py_faa_s.Prelude.{ℕ, ◌≡◌, true, arith}
use py_faa_s.Models.{running, Execution}
use py_faa_s.Models.Lifecycle.{is_terminal}
use py_faa_s.Worker.{SandboxResult, finish_row, new_status}

pub new_status-is_terminal : (r : SandboxResult) → is_terminal (new_status r) ≡ true
unfolding new_status
new_status-is_terminal r = ground arith

-- A result closes a running execution with the status that the result has.
pub status-finish_row :
    (r : SandboxResult) (elapsed now : ℕ) (e : Execution)
    → e.status ≡ running
    → (finish_row r elapsed now e).status ≡ new_status r
unfolding finish_row
status-finish_row r elapsed now e h = ground arith

-- A result never moves an execution that is not running.
pub status-finish_row_ne :
    (r : SandboxResult) (elapsed now : ℕ) (e : Execution)
    → is_terminal e.status ≡ true
    → (finish_row r elapsed now e).status ≡ e.status
unfolding finish_row
status-finish_row_ne r elapsed now e h = ground arith

pub id-finish_row :
    (r : SandboxResult) (elapsed now : ℕ) (e : Execution) → (finish_row r elapsed now e).id ≡ e.id
unfolding finish_row
id-finish_row r elapsed now e = ground arith
