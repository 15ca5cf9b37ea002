-- ===== src/Keys.antt =====
-- api/routers/keys.py and api/dependencies/api_keys.py: API keys and who authenticates with them.
-- The hash (SHA-256), the random token and the clock are arguments.
pub mod Revoked
pub mod Created
mod Tests
use py_faa_s.Prelude.{
  ℕ, zero, suc, ◌==◌, ◌&&◌, not, is_some, String, str_eq, str_append, Bool, Option, none, some,
  List, [], ◌∷◌, ◌++◌, map, select, update_where,
}
use py_faa_s.Prelude.Lines.{text_take}
use py_faa_s.Models.{User, ApiKey, text, Error, http, Result, ok, err}
use py_faa_s.Session.{
  Database, Session, Action, pure, raise, lift, ◌>>=◌, ◌>>◌, query, write, scalar_one_or_none,
  or_raise,
}

abbrev pub add_key : ApiKey → Database → Database
add_key k db = record db { api_keys = db.api_keys ++ k ∷ [] }

abbrev pub save_key : ApiKey → Database → Database
save_key k db = record db { api_keys = update_where (λ x. x.id == k.id) (λ _. k) db.api_keys }

abbrev pub key_not_found : Error
key_not_found = http 404 (text "API key not found")

abbrev pub revoked : ℕ → ApiKey → ApiKey
revoked now k = record k { revoked_at = some now }

unfoldable pub revoke_key : ℕ → ℕ → User → Action Session (Unit {0})
revoke_key now key_id current_user = do
  rows ← query (λ db. select (λ k. k.id == key_id && k.owner_id == current_user.id) db.api_keys)
  key ← lift (or_raise key_not_found (scalar_one_or_none rows))
  write (save_key (revoked now key))

pub record ApiKeyPrincipal : Type 0 where
  pub key : ApiKey
  pub user : User

-- `SELECT … JOIN users ON owner_id = users.id`
abbrev pub joined : List User → List ApiKey → List (ApiKey × User)
joined users [] = []
joined users (k ∷ ks) =
    map (λ u. (k, u)) (select (λ u. u.id == k.owner_id) users) ++ joined users ks

abbrev pub missing_key : Error
missing_key = http 401 (text "Missing API key")

abbrev pub invalid_key : Error
invalid_key = http 401 (text "Invalid API key")

-- `result.first()`, and the exception if there is no row.
abbrev pub first_or {ℓ} : {A : Type ℓ} → Error → List A → Result A
first_or e [] = err e
first_or e (x ∷ xs) = ok x

abbrev pub used : ℕ → ApiKey → ApiKey
used now k = record k { last_used_at = some now }

module _ (hash_api_key : String → String) where
  abbrev pub is_usable : String → ApiKey → Bool
  is_usable value k = str_eq k.key_hash (hash_api_key value) && not (is_some k.revoked_at)

  unfoldable pub find_principal : ℕ → String → Action Session ApiKeyPrincipal
  find_principal now value = do
    rows ← query (λ db. joined db.users (select (is_usable value) db.api_keys))
    row ← lift (first_or invalid_key rows)
    write (save_key (used now row.0))
    pure (record { key = used now row.0; user = row.1 })

  unfoldable pub get_api_key_principal : ℕ → Option String → Action Session ApiKeyPrincipal
  unfolding find_principal
  get_api_key_principal now none = raise missing_key
  get_api_key_principal now (some String.[]) = raise missing_key
  get_api_key_principal now (some (String.◌∷◌ c s)) = find_principal now (String.◌∷◌ c s)

  -- The row of a new key with the random `token`.
  abbrev pub new_key : ℕ → String → String → User → ApiKey
  new_key id name token current_user = record {
    id = id;
    owner_id = current_user.id;
    name = name;
    key_hash = hash_api_key (str_append "sopm_" token);
    key_prefix = text_take 12 (str_append "sopm_" token);
    revoked_at = none;
    last_used_at = none;
  }

  unfoldable pub create_key : ℕ → String → String → User → Action Session (ApiKey × String)
  create_key id name token current_user =
      write (add_key (new_key id name token current_user))
      >> pure (new_key id name token current_user, str_append "sopm_" token)
