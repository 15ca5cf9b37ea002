-- ===== src/Session.antt =====
-- shared/db/session.py: a database session. A query reads the rows that the session has written;
-- `commit` makes them last, and an exception that leaves the session rolls the rest back.
-- The rows of a table are a list: `SELECT … WHERE`, `UPDATE`, `DELETE` and `INSERT` have their
-- meaning in SQL on it. Connections, pools and failing statements are not modelled, and a session
-- runs by itself.
pub mod Keeps
pub mod Reads
pub mod Samples
use py_faa_s.Prelude.{
  select, All-select, true, ◌≡◌, ◌==◌, Bool, Option, none, some, List, [], ◌∷◌, ◌++◌, if◌then◌else◌,
  update_where,
}
use py_faa_s.Models.{
  User, ApiKey, Function, FunctionVersion, VersionActivation, Execution, ExecutionLog, Schedule,
  Detail, Error, http, multiple_results, Result, ok, err,
}

pub record Database : Type 0 where
  pub users : List User
  pub api_keys : List ApiKey
  pub functions : List Function
  pub versions : List FunctionVersion
  pub activations : List VersionActivation
  pub executions : List Execution
  pub logs : List ExecutionLog
  pub schedules : List Schedule

-- The rows as the session sees them, and as they were last committed.
pub record Session : Type 0 where
  pub live : Database
  pub saved : Database

-- A call that changes a state and may raise: what was written before a raise stays written.
abbrev pub Action {ℓ} : Type ℓ → Type ℓ → Type ℓ
Action S A = S → Result A × S

module _ {ℓ} {S A : Type ℓ} where
  abbrev pub pure : A → Action S A
  pure a s = (ok a, s)

  abbrev pub raise : Error → Action S A
  raise e s = (err e, s)

  abbrev pub lift : Result A → Action S A
  lift r s = (r, s)

module _ {ℓ} {S A B : Type ℓ} where
  infixl 5 ◌>>=◌ ◌>>◌
  abbrev pub ◌>>=◌ : Action S A → (A → Action S B) → Action S B
  ◌>>=◌ m f s = let (r, s') = m s in elim r [ ok a ↦ f a s' | err e ↦ (err e, s') ]

  abbrev pub ◌>>◌ : Action S A → Action S B → Action S B
  m >> k = m >>= λ _. k

module _ {S : Type 0} where
  abbrev pub raise_if : Bool → Error → Action S (Unit {0})
  raise_if c e s = (if c then err e else ok tt, s)

-- `result.scalar_one_or_none()`
abbrev pub scalar_one_or_none {ℓ} : {A : Type ℓ} → List A → Result (Option A)
scalar_one_or_none [] = ok none
scalar_one_or_none (x ∷ []) = ok (some x)
scalar_one_or_none (x ∷ y ∷ xs) = err multiple_results

-- `if row is None: raise …`
abbrev pub or_raise {ℓ} : {A : Type ℓ} → Error → Result (Option A) → Result A
or_raise e (ok none) = err e
or_raise e (ok (some a)) = ok a
or_raise e (err e') = err e'

abbrev pub not_found : Detail → Error
not_found = http 404

abbrev pub query : {A : Type 0} → (Database → A) → Action Session A
query f s = (ok (f s.live), s)

abbrev pub write : (Database → Database) → Action Session (Unit {0})
write f s = (ok tt, record s { live = f s.live })

abbrev pub commit : Action Session (Unit {0})
commit s = (ok tt, record s { saved = s.live })

-- The rows after the session ends: the last commit, or what an exception leaves of it.
abbrev pub closed : {A : Type 0} → Result A × Session → Database
closed (ok a, s) = s.live
closed (err e, s) = s.saved

unfoldable pub get_db : {A : Type 0} → Action Session A → Database → Result A × Database
get_db m db = let r = m (record { live = db; saved = db }) in (r.0, closed r)

-- The same `try`, for code that is no request handler.
unfoldable pub get_db_context : {A : Type 0} → Action Session A → Database → Result A × Database
get_db_context m db = let r = m (record { live = db; saved = db }) in (r.0, closed r)

-- A handler that also works on a service, such as a queue: what it did there stays done when it
-- raises.
module _ {Q A : Type 0} where
  abbrev pub on_session : Action Session A → Action (Session × Q) A
  on_session m (s, q) = let (r, s') = m s in (r, (s', q))

  abbrev pub on_service : Action Q A → Action (Session × Q) A
  on_service m (s, q) = let (r, q') = m q in (r, (s, q'))

  abbrev pub with_db : Action (Session × Q) A → Database × Q → Result A × Database × Q
  with_db m (db, q) =
      let (r, (s, q')) = m (record { live = db; saved = db }, q) in (r, closed (r, s), q')

-- `try: … except Exception`: the exception as a value.
abbrev pub caught : {S A : Type 0} → Action S A → Action S (Result A)
caught m s = let (r, s') = m s in (ok r, s')

-- An `UPDATE` of the row of a changed object, by its primary key.
abbrev pub save_execution : Execution → Database → Database
save_execution e db = record db {
  executions = update_where (λ x. x.id == e.id) (λ _. e) db.executions;
}

abbrev pub save_function : Function → Database → Database
save_function f db = record db {
  functions = update_where (λ x. x.id == f.id) (λ _. f) db.functions;
}

abbrev pub save_schedule : Schedule → Database → Database
save_schedule c db = record db {
  schedules = update_where (λ x. x.id == c.id) (λ _. c) db.schedules;
}

abbrev pub add_execution : Execution → Database → Database
add_execution e db = record db { executions = db.executions ++ e ∷ [] }

abbrev pub add_log : ExecutionLog → Database → Database
add_log l db = record db { logs = db.logs ++ l ∷ [] }

-- A query that returns a row has found that row alone.
pub scalar-some {ℓ} :
    {A : Type ℓ} (l : List A) (v : A) → scalar_one_or_none l ≡ ok (some v) → l ≡ v ∷ []
scalar-some [] v h = cc
scalar-some (x ∷ []) v h = cc
scalar-some (x ∷ y ∷ xs) v h = cc

-- The row that a query returns meets its condition.
pub scalar-select {ℓ} :
    {A : Type ℓ} (p : A → Bool) (xs : List A) (v : A)
    → scalar_one_or_none (select p xs) ≡ ok (some v)
    → p v ≡ true
scalar-select p xs v h = (rw (scalar-some (select p xs) v h) at (All-select p xs)).0
