-- ===== src/Functions/Removal.antt =====
-- What a deletion leaves behind.
use py_faa_s.Prelude.{
  All-select, ltb, ℕ, List, String, ◌==◌, ◌≡◌, refl, ◌∙◌, ap, Bool, true, false, some, [], ◌∷◌,
  arith, select, opt_eq, All, All-update_where, delete_where, map, not, none, ==-refl, update_where,
  if◌then◌else◌,
}
use py_faa_s.Models.{User, Function, FunctionVersion, Execution, Error, Result, ok, err}
use py_faa_s.Session.{Database, Session, Action, get_db, with_db, scalar_one_or_none, or_raise}
use py_faa_s.Session.Reads.{Reads, Reads-bind, Reads-query, Reads-lift, Reads-raise_if}
use py_faa_s.Functions.{get_function_or_404, owned, function_not_found}
use py_faa_s.Functions.Delete.{
  delete_function, find_deletable, delete_artifacts, without_function, versions_of,
  active_executions, runs_version, detached, without_version, has_active_executions,
  detach_function, unrouted,
}

-- After an update that makes the condition false, no row meets it.
update_where_none :
    {A : Type 0} (p : A → Bool) (f : A → A) (xs : List A)
    → ((x : A) → p x ≡ true → p (f x) ≡ false)
    → All (λ x. p x ≡ false) (update_where p f xs)
update_where_none p f [] h = tt
update_where_none {A = A} p f (x ∷ xs) h = (at_head (p x) refl, update_where_none p f xs h)
  where
    at_head : (b : Bool) → p x ≡ b → p (if b then f x else x) ≡ false
    at_head true e = h x e
    at_head false e = e

map-update_where :
    {A : Type 0} (h : A → A) (p : A → Bool) (f : A → A) (xs : List A)
    → ((x : A) → h (f x) ≡ h x)
    → map h (update_where p f xs) ≡ map h xs
map-update_where h p f [] same = refl
map-update_where h p f (x ∷ xs) same = ground (arith, map-update_where h p f xs same, same x)

update_where-update_where :
    {A : Type 0} (p q : A → Bool) (f g : A → A) (xs : List A)
    → ((x : A) → q (f x) ≡ false)
    → update_where q g (update_where p f xs)
      ≡ map (λ x. if p x then f x else if q x then g x else x) xs
update_where-update_where p q f g [] h = refl
update_where-update_where p q f g (x ∷ xs) h =
    ground (arith, update_where-update_where p q f g xs h, h x)

delete_where-select :
    {A : Type 0} (p : A → Bool) (xs : List A) → delete_where p xs ≡ select (λ x. not (p x)) xs
delete_where-select p [] = refl
delete_where-select p (x ∷ xs) = ground (arith, delete_where-select p xs)

delete_where-update_where :
    {A : Type 0} (p : A → Bool) (y : A) (xs : List A)
    → p y ≡ true
    → delete_where p (update_where p (λ _. y) xs) ≡ select (λ x. not (p x)) xs
delete_where-update_where p y [] h = refl
delete_where-update_where p y (x ∷ xs) h = ground (arith, delete_where-update_where p y xs h, h)

-- What an execution says of its run: all but the four references.
abbrev pub history : Execution → Execution
history e = record e {
  function_id = none;
  function_version_id = none;
  schedule_id = none;
  triggered_by = none;
}

-- An execution after the deletion: those of the function are detached and given to the user, and one
-- that only ran a version of it loses that reference.
abbrev pub detached_row : ℕ → List ℕ → User → Execution → Execution
detached_row id version_ids u e =
    if opt_eq e.function_id (some id)
    then record e {
      function_id = none;
      function_version_id = none;
      schedule_id = none;
      triggered_by = some u.id;
    }
    else if runs_version version_ids e
    then record e { function_version_id = none }
    else e

-- The tables lose the rows of the function and no others; no execution refers to the function or to
-- one of the versions, and none is lost or changed in its history.
pub record IsRemoved (id : ℕ) (version_ids : List ℕ) (u : User) (db db' : Database) : Type 0 where
  pub functions : db'.functions ≡ select (λ f. not (f.id == id)) db.functions
  pub versions : db'.versions ≡ select (λ v. not (v.function_id == id)) db.versions
  pub activations : db'.activations ≡ select (λ a. not (a.function_id == id)) db.activations
  pub schedules : db'.schedules ≡ select (λ c. not (c.function_id == id)) db.schedules
  pub detached_function : All (λ e. opt_eq e.function_id (some id) ≡ false) db'.executions
  pub detached_versions : All (λ e. runs_version version_ids e ≡ false) db'.executions
  pub executions : db'.executions ≡ map (detached_row id version_ids u) db.executions
  pub keeps_history : map history db'.executions ≡ map history db.executions

runs_version-without : (ids : List ℕ) (e : Execution) → runs_version ids (without_version e) ≡ false
runs_version-without [] e = refl
runs_version-without (id ∷ ids) e = runs_version-without ids e

abbrev ids_of : List FunctionVersion → List ℕ
ids_of = map (λ (v : FunctionVersion). v.id)

without_function-IsRemoved :
    (fn : Function) (versions : List FunctionVersion) (u : User) (db : Database)
    → IsRemoved fn.id (ids_of versions) u db (without_function fn versions u db)
without_function-IsRemoved fn versions u db = record {
  functions =
      delete_where-update_where (λ (f : Function). f.id == fn.id) (unrouted fn) db.functions
        (==-refl fn.id);
  versions = delete_where-select (λ v. v.function_id == fn.id) db.versions;
  activations = delete_where-select (λ a. a.function_id == fn.id) db.activations;
  schedules = delete_where-select (λ c. c.function_id == fn.id) db.schedules;
  detached_function =
      All-update_where (λ e. opt_eq e.function_id (some fn.id) ≡ false)
        (runs_version (ids_of versions)) without_version (detach_function fn.id u db).executions
        (λ e _ h. h)
        (update_where_none (λ (e : Execution). opt_eq e.function_id (some fn.id)) (detached u)
          db.executions (λ e _. refl));
  detached_versions =
      update_where_none (runs_version (ids_of versions)) without_version
        (detach_function fn.id u db).executions (λ e _. runs_version-without (ids_of versions) e);
  executions =
      update_where-update_where (λ (e : Execution). opt_eq e.function_id (some fn.id))
        (runs_version (ids_of versions)) (detached u) without_version db.executions
        (λ e. runs_version-without (ids_of versions) (detached u e));
  keeps_history =
      map-update_where history (runs_version (ids_of versions)) without_version
        (detach_function fn.id u db).executions (λ e. refl)
      ∙ map-update_where history (λ (e : Execution). opt_eq e.function_id (some fn.id)) (detached u)
          db.executions (λ e. refl);
}

find_deletable-Reads : (id : ℕ) (u : User) → Reads (find_deletable id u)
unfolding find_deletable get_function_or_404
find_deletable-Reads id u =
    Reads-bind
      (Reads-bind (Reads-query (λ db. select (owned id u) db.functions))
        (λ rows. Reads-lift (or_raise function_not_found (scalar_one_or_none rows))))
      λ fn. Reads-bind (Reads-query (active_executions fn.id)) λ active_count.
        Reads-bind (Reads-raise_if (ltb 0 active_count) has_active_executions) λ _.
          Reads-bind (Reads-query (versions_of fn.id)) λ versions. Reads-lift (ok (fn, versions))

-- What a request may delete: a function of the user, none of whose executions is unfinished.
find_deletable-ok :
    (id : ℕ) (u : User) (s : Session) (fn : Function) (versions : List FunctionVersion)
    → (find_deletable id u s).0 ≡ ok (fn, versions)
    → (owned id u fn ≡ true)
      × (active_executions fn.id s.live ≡ 0)
      × (versions ≡ versions_of fn.id s.live)
unfolding find_deletable get_function_or_404
find_deletable-ok id u s fn versions h = found (select (owned id u) s.live.functions) refl
  where
    found :
        (l : List Function)
        → select (owned id u) s.live.functions ≡ l
        → (owned id u fn ≡ true)
          × (active_executions fn.id s.live ≡ 0)
          × (versions ≡ versions_of fn.id s.live)
    found [] e = absurd (ground (arith, e, h))
    found (x ∷ y ∷ l) e = absurd (ground (arith, e, h))
    found (x ∷ []) e =
        let same : x ≡ fn = ground (arith, e, h) in
        let of_user : owned id u x ≡ true =
          (rw e at (All-select (owned id u) s.live.functions)).0 in
        let idle : active_executions fn.id s.live ≡ 0 = ground (arith, e, h) in
        (rw (← same) of_user, idle, ground (arith, e, h))

abbrev paths_of : List FunctionVersion → List String
paths_of = map (λ (v : FunctionVersion). v.artifact_path)

module _ {O : Type 0} (delete_artifact : String → Action O (Unit {0})) where
  -- How a request to delete ends.
  pub data Deletes (id : ℕ) (u : User) (db : Database) (o : O)
      (end : Result (Unit {0}) × Database × O) : Type 0 where
    refused :
        (exc : Error)
        → (get_db (find_deletable id u) db).0 ≡ err exc
        → end ≡ (err exc, db, o)
        → Deletes id u db o end
    undone :
        (fn : Function) (exc : Error) (o' : O)
        → owned id u fn ≡ true
        → delete_artifacts delete_artifact (paths_of (versions_of fn.id db)) o ≡ (err exc, o')
        → end ≡ (err exc, db, o')
        → Deletes id u db o end
    removed :
        (fn : Function) (db' : Database) (o' : O)
        → owned id u fn ≡ true
        → active_executions fn.id db ≡ 0
        → delete_artifacts delete_artifact (paths_of (versions_of fn.id db)) o ≡ (ok tt, o')
        → IsRemoved fn.id (ids_of (versions_of fn.id db)) u db db'
        → end ≡ (ok tt, db', o')
        → Deletes id u db o end

  pub delete_function-Deletes :
      (id : ℕ) (u : User) (db : Database) (o : O)
      → Deletes id u db o (with_db (delete_function delete_artifact id u) (db, o))
  unfolding delete_function get_db
  delete_function-Deletes id u db o =
      chosen (find_deletable id u opened) refl ((find_deletable-Reads id u).same opened)
    where
      opened : Session
      opened = record { live = db; saved = db }

      chosen :
          (r : Result (Function × List FunctionVersion) × Session)
          → find_deletable id u opened ≡ r
          → (find_deletable id u opened).1 ≡ opened
          → Deletes id u db o (with_db (delete_function delete_artifact id u) (db, o))
      chosen (err exc, s) h same = refused exc (ground (arith, h)) (ground (arith, h, same))
      chosen (ok (fn, versions), s) h same =
          let (of_user, idle, all) =
            find_deletable-ok id u opened fn versions (ground (arith, h)) in
          let at_start : s ≡ opened = ground (arith, h, same) in
          emptied fn versions (h ∙ ap (λ t. (ok (fn, versions), t)) at_start) of_user idle all
            (delete_artifacts delete_artifact (paths_of versions) o) refl
        where
          emptied :
              (fn : Function) (versions : List FunctionVersion)
              → find_deletable id u opened ≡ (ok (fn, versions), opened)
              → owned id u fn ≡ true
              → active_executions fn.id db ≡ 0
              → versions ≡ versions_of fn.id db
              → (r : Result (Unit {0}) × O)
              → delete_artifacts delete_artifact (paths_of versions) o ≡ r
              → Deletes id u db o (with_db (delete_function delete_artifact id u) (db, o))
          emptied fn versions found of_user idle all (err exc, o') e =
              undone fn exc o' of_user (rw (← all) e) (ground (arith, found, e))
          emptied fn versions found of_user idle all (ok _, o') e =
              removed fn (without_function fn versions u db) o' of_user idle (rw (← all) e)
                (rw (← all) (without_function-IsRemoved fn versions u db))
                (ground (arith, found, e))
