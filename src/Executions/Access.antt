-- ===== src/Executions/Access.antt =====
-- Who reads and cancels which execution.
use py_faa_s.Prelude.{
  ℕ, List, ◌==◌, ◌&&◌, ◌≡◌, refl, ◌⊎◌, inl, inr, true, false, [], ◌∷◌, arith, select, All-select,
}
use py_faa_s.Models.{
  cancelled, Result, multiple_results, User, Execution, ok, err, http, invalid_transition,
  transition_to,
}
use py_faa_s.Models.Lifecycle.{is_terminal}
use py_faa_s.Session.{Database, Session, get_db, save_execution, scalar_one_or_none, or_raise}
use py_faa_s.Executions.{
  is_visible, get_execution, cancel_execution, execution_not_found, as_conflict,
}

-- The executions with this id that the user sees.
abbrev pub seen : ℕ → User → Database → List Execution
seen id u db = select (λ e. e.id == id && is_visible db u e) db.executions

pub get_execution-session :
    (id : ℕ) (u : User) (s : Session)
    → get_execution id u s
      ≡ (or_raise execution_not_found (scalar_one_or_none (seen id u s.live)), s)
unfolding get_execution
get_execution-session id u s = refl

cancelling :
    (e : Execution)
    → (is_terminal e.status ≡ false
        × (as_conflict (transition_to cancelled e) ≡ ok (record e { status = cancelled })))
      ⊎ (is_terminal e.status ≡ true
          × (as_conflict (transition_to cancelled e)
              ≡ err (http 409 (invalid_transition e.status cancelled))))
unfolding transition_to
cancelling e = ground arith

visible_of_seen :
    (id : ℕ) (u : User) (db : Database) (e : Execution)
    → seen id u db ≡ e ∷ []
    → is_visible db u e ≡ true
visible_of_seen id u db e found =
    let meets : (e.id == id && is_visible db u e) ≡ true =
      (rw found at (All-select (λ x. x.id == id && is_visible db u x) db.executions)).0 in
    ground arith

-- How a request to cancel ends.
pub data Cancels (id : ℕ) (u : User) (db : Database) (end : Result (Unit {0}) × Database)
    : Type 0 where
  unseen : seen id u db ≡ [] → end ≡ (err execution_not_found, db) → Cancels id u db end
  ambiguous :
      (x y : Execution) (es : List Execution)
      → seen id u db ≡ x ∷ y ∷ es
      → end ≡ (err multiple_results, db)
      → Cancels id u db end
  stopped :
      (e : Execution)
      → seen id u db ≡ e ∷ []
      → is_visible db u e ≡ true
      → is_terminal e.status ≡ false
      → end ≡ (ok tt, save_execution (record e { status = cancelled }) db)
      → Cancels id u db end
  too_late :
      (e : Execution)
      → seen id u db ≡ e ∷ []
      → is_visible db u e ≡ true
      → is_terminal e.status ≡ true
      → end ≡ (err (http 409 (invalid_transition e.status cancelled)), db)
      → Cancels id u db end

-- Cancelling an execution that the user does not see gets 404 and changes nothing. One that they see
-- is cancelled in any status that is not terminal, with nothing else changed; in a terminal status
-- the answer is 409, and the database stays as it is.
pub cancel_execution-Cancels :
    (id : ℕ) (u : User) (db : Database) → Cancels id u db (get_db (cancel_execution id u) db)
unfolding get_db cancel_execution
cancel_execution-Cancels id u db = found (seen id u db) refl
  where
    found :
        (l : List Execution)
        → seen id u db ≡ l
        → Cancels id u db (get_db (cancel_execution id u) db)
    found [] h = unseen h (ground (arith, h))
    found (x ∷ y ∷ es) h = ambiguous x y es h (ground (arith, h))
    found (e ∷ []) h = elim (cancelling e) [
      | inl (open_status, returns) ↦
          stopped e h (visible_of_seen id u db e h) open_status (ground (arith, h, returns))
      | inr (closed_status, raises) ↦
          too_late e h (visible_of_seen id u db e h) closed_status (ground (arith, h, raises))
    ]
