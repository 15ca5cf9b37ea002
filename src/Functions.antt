-- ===== src/Functions.antt =====
-- api/routers/functions.py: functions and their versions. A handler runs in the session that
-- `get_db` gives it; what it returns is the row that the response is made of. A fresh id (`uuid4`)
-- is an argument. The listing endpoints, which only read, are not modelled. The upload and the
-- deletion stand in Upload and Delete.
pub mod Canary
pub mod Delete
pub mod Removal
pub mod Upload
pub mod Numbers
mod Stores
mod Tests
use py_faa_s.Prelude.{
  ℕ, zero, suc, ◌==◌, ltb, leb, opt_eq, str_eq, str_append, String, ◌&&◌, ◌||◌, not, Bool, true,
  false, Option, none, some, is_some, List, [], ◌∷◌, ◌++◌, if◌then◌else◌, select, count_where,
}
use py_faa_s.Config.{Settings}
use py_faa_s.Models.{
  Json, User, Function, FunctionStatus, FunctionVersion, VersionActivation, text, Error, http,
  Result, ok, err,
}
use py_faa_s.Session.{
  Database, Session, Action, pure, raise_if, lift, ◌>>=◌, ◌>>◌, query, write, scalar_one_or_none,
  or_raise, save_function,
}

abbrev pub function_not_found : Error
function_not_found = http 404 (text "Function not found")

abbrev pub version_not_found : Error
version_not_found = http 404 (text "Version not found")

abbrev pub owned : ℕ → User → Function → Bool
owned function_id owner f = f.id == function_id && f.owner_id == owner.id

-- `_get_function_or_404`
unfoldable pub get_function_or_404 : ℕ → User → Action Session Function
get_function_or_404 function_id owner = do
  rows ← query (λ db. select (owned function_id owner) db.functions)
  lift (or_raise function_not_found (scalar_one_or_none rows))

abbrev pub add_activation : VersionActivation → Database → Database
add_activation a db = record db { activations = db.activations ++ a ∷ [] }

-- `_record_activation`
unfoldable pub record_activation :
    Function → User → String → Option ℕ → Option ℕ → Option ℕ → ℕ → Action Session (Unit {0})
record_activation fn actor action previous activated canary percent = write (
    add_activation (record {
      function_id = fn.id;
      actor_id = some actor.id;
      previous_version_id = previous;
      activated_version_id = activated;
      canary_version_id = canary;
      canary_percent = percent;
      action = action;
    }))

pub record FunctionCreateRequest : Type 0 where
  pub name : String
  pub description : Option String
  pub tags : Json

-- The row of a new function, with the defaults of its columns.
abbrev pub new_function : ℕ → User → FunctionCreateRequest → Function
new_function id owner body = record {
  id = id;
  owner_id = owner.id;
  name = body.name;
  description = body.description;
  runtime = "python3.12";
  status = FunctionStatus.active;
  active_version_id = none;
  canary_version_id = none;
  canary_percent = 0;
  tags = body.tags;
}

abbrev pub is_deprecated : FunctionStatus → Bool
is_deprecated FunctionStatus.deprecated = true
is_deprecated _ = false

abbrev pub counts_for : User → Function → Bool
counts_for owner f = f.owner_id == owner.id && not (is_deprecated f.status)

abbrev pub named : User → String → Function → Bool
named owner n f = f.owner_id == owner.id && str_eq f.name n

abbrev pub too_many_functions : String → Error
too_many_functions limit =
    http 429 (text (str_append "Maximum of " (str_append limit " functions per user")))

abbrev pub name_taken : String → Error
name_taken n = http 409 (text (str_append "Function '" (str_append n "' already exists")))

abbrev pub add_function : Function → Database → Database
add_function f db = record db { functions = db.functions ++ f ∷ [] }

-- `str` is Python's, on numbers.
unfoldable pub create_function :
    (ℕ → String) → Settings → ℕ → FunctionCreateRequest → User → Action Session Function
create_function str settings id body current_user = do
  count ← query (λ db. count_where (counts_for current_user) db.functions)
  raise_if (leb settings.max_functions_per_user count)
      (too_many_functions (str settings.max_functions_per_user))
  rows ← query (λ db. select (named current_user body.name) db.functions)
  existing ← lift (scalar_one_or_none rows)
  raise_if (is_some existing) (name_taken body.name)
  write (add_function (new_function id current_user body))
  pure (new_function id current_user body)

unfoldable pub get_function : ℕ → User → Action Session Function
unfolding get_function_or_404
get_function function_id current_user = get_function_or_404 function_id current_user

pub record FunctionUpdateRequest : Type 0 where
  pub description : Option String
  pub status : Option FunctionStatus
  pub tags : Option Json

-- `if new is not None: field = new`
abbrev pub given_or {ℓ} : {A : Type ℓ} → Option A → A → A
given_or none old = old
given_or (some new) old = new

abbrev pub given_or_some {ℓ} : {A : Type ℓ} → Option A → Option A → Option A
given_or_some none old = old
given_or_some (some new) old = some new

abbrev pub updated_function : FunctionUpdateRequest → Function → Function
updated_function body fn = record fn {
  description = given_or_some body.description fn.description;
  status = given_or body.status fn.status;
  tags = given_or body.tags fn.tags;
}

unfoldable pub update_function : ℕ → FunctionUpdateRequest → User → Action Session Function
update_function function_id body current_user = do
  fn ← get_function_or_404 function_id current_user
  write (save_function (updated_function body fn))
  pure (updated_function body fn)

-- The version of a function that `get_version` finds; the other two endpoints want it active too.
unfoldable pub get_version : ℕ → ℕ → User → Action Session FunctionVersion
unfolding get_function_or_404
get_version function_id version_id current_user = do
  fn ← get_function_or_404 function_id current_user
  rows ← query (λ db. select (λ v. v.id == version_id && v.function_id == fn.id) db.versions)
  lift (or_raise version_not_found (scalar_one_or_none rows))

unfoldable pub find_active_version : ℕ → Function → Action Session FunctionVersion
find_active_version version_id fn = do
  rows ←
      query (λ db.
        select (λ v. v.id == version_id && v.function_id == fn.id && v.is_active) db.versions)
  lift (or_raise version_not_found (scalar_one_or_none rows))

-- The function with `version_id` active and no canary.
abbrev pub with_active : ℕ → Function → Function
with_active version_id fn = record fn {
  active_version_id = some version_id;
  canary_version_id = none;
  canary_percent = 0;
}

unfoldable pub activate_version : ℕ → ℕ → User → Action Session Function
activate_version function_id version_id current_user = do
  fn ← get_function_or_404 function_id current_user
  find_active_version version_id fn
  write (save_function (with_active version_id fn))
  record_activation fn current_user "activate" fn.active_version_id (some version_id) none 0
  get_function_or_404 function_id current_user

abbrev pub same_as_active : Error
same_as_active = http 422 (text "Canary version must differ from active version")

abbrev pub without_canary : Function → Function
without_canary fn = record fn { canary_version_id = none; canary_percent = 0 }

abbrev pub with_canary : ℕ → ℕ → Function → Function
with_canary id percent fn = record fn { canary_version_id = some id; canary_percent = percent }

unfoldable pub clear_canary : Function → User → Action Session (Unit {0})
clear_canary fn current_user =
    write (save_function (without_canary fn))
    >> record_activation fn current_user "canary_clear" fn.active_version_id none none 0

-- The `else` branch of `update_canary`, for a canary version and a share that is not 0.
unfoldable pub set_canary : Function → ℕ → ℕ → User → Action Session (Unit {0})
set_canary fn id percent current_user = do
  find_active_version id fn
  raise_if (opt_eq fn.active_version_id (some id) && ltb percent 100) same_as_active
  if percent == 100
      then (write (save_function (with_active id fn))
          >> record_activation fn current_user "promote" fn.active_version_id (some id) none 0)
      else (write (save_function (with_canary id percent fn))
          >> record_activation fn current_user "canary_update" fn.active_version_id
              fn.active_version_id (some id) percent)

unfoldable pub change_canary : Function → Option ℕ → ℕ → User → Action Session (Unit {0})
change_canary fn none percent current_user = clear_canary fn current_user
change_canary fn (some id) percent current_user =
    if percent == 0 then clear_canary fn current_user else set_canary fn id percent current_user

-- `body` is the canary version and its share.
unfoldable pub update_canary : ℕ → Option ℕ → ℕ → User → Action Session Function
update_canary function_id canary_version_id canary_percent current_user = do
  fn ← get_function_or_404 function_id current_user
  change_canary fn canary_version_id canary_percent current_user
  get_function_or_404 function_id current_user
