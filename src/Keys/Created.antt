-- ===== src/Keys/Created.antt =====
-- A new key works: the round trip from creating it to authenticating with it.
use py_faa_s.Prelude.{
  ℕ, ◌==◌, ◌≡◌, refl, ◌∙◌, ap, String, str_append, eq_iff, true, some, [], ◌∷◌, ◌++◌, arith, select,
}
use text.Mathlib.TextLemmas.{cons-append}
use py_faa_s.Models.{User, ok}
use py_faa_s.Prelude.Rows.{select-append_one}
use py_faa_s.Session.{Session, Database, get_db}
use py_faa_s.Keys.{
  joined, is_usable, find_principal, get_api_key_principal, create_key, new_key, used,
}

module _ (hash_api_key : String → String) (id now : ℕ) (name token : String) (u : User) where
  abbrev raw_key : String
  raw_key = str_append "sopm_" token

  raw_key_used :
      (s : Session)
      → get_api_key_principal hash_api_key now (some raw_key) s
        ≡ find_principal hash_api_key now raw_key s
  unfolding get_api_key_principal
  raw_key_used s =
      let starts : raw_key ≡ String.◌∷◌ "s" (str_append "opm_" token) =
        cons-append "s" "opm_" token in
      rw starts refl

  new_key_usable : is_usable hash_api_key raw_key (new_key hash_api_key id name token u) ≡ true
  new_key_usable = ground (arith, (eq_iff (hash_api_key raw_key) (hash_api_key raw_key)).1 refl)

  -- A new key of a user that is alone with their id, whose hash no usable key has, authenticates as
  -- that key and that user, from the text that creating it returned.
  pub create_key-get_api_key_principal :
      (db : Database)
      → select (λ x. x.id == u.id) db.users ≡ u ∷ []
      → select (is_usable hash_api_key raw_key) db.api_keys ≡ []
      → let (created, after) = get_db (create_key hash_api_key id name token u) db in
        (created ≡ ok (new_key hash_api_key id name token u, raw_key))
        × ((get_db (get_api_key_principal hash_api_key now (some raw_key)) after).0
            ≡ ok (record { key = used now (new_key hash_api_key id name token u); user = u }))
  unfolding create_key get_db find_principal
  create_key-get_api_key_principal db alone fresh =
      let found : select (is_usable hash_api_key raw_key)
            (db.api_keys ++ new_key hash_api_key id name token u ∷ [])
          ≡ new_key hash_api_key id name token u ∷ [] =
        select-append_one (is_usable hash_api_key raw_key) db.api_keys
          (new_key hash_api_key id name token u) fresh new_key_usable in
      let row : joined db.users (
            select (is_usable hash_api_key raw_key)
              (db.api_keys ++ new_key hash_api_key id name token u ∷ []))
          ≡ (new_key hash_api_key id name token u, u) ∷ [] =
        rw found (rw alone refl) in
      (refl, ap (λ e. e.0) (raw_key_used _) ∙ ground (arith, row))
