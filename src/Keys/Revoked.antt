-- ===== src/Keys/Revoked.antt =====
-- A key that was revoked authenticates nobody, whatever requests come later.
use py_faa_s.Prelude.{
  ℕ, ◌==◌, ◌&&◌, ◌||◌, not, is_some, String, ◌≡◌, ◌≢◌, refl, Bool, true, false, Option, none, some,
  List, [], ◌∷◌, arith, map, select, update_where, if◌then◌else◌, All, All-append, All-select,
  All-of_select, All-update_to, str_append,
}
use py_faa_s.Models.{User, ApiKey, Error, Result, ok, err}
use py_faa_s.Session.{Database, Session, get_db}
use py_faa_s.Session.Keeps.{
  Keeps, Keeps-bind, Keeps-then, Keeps-pure, Keeps-write, Keeps-query, Keeps-lift, Keeps-get_db,
  Keeps-find, Keeps-weaken, Ends,
}
use py_faa_s.Keys.{
  joined, is_usable, find_principal, get_api_key_principal, create_key, new_key, revoke_key,
  save_key, revoked, used, first_or, invalid_key, ApiKeyPrincipal, add_key, key_not_found,
}

-- Every row with this id is revoked.
abbrev pub IsRevoked : ℕ → ApiKey → Type 0
IsRevoked id k = (not (k.id == id) || is_some k.revoked_at) ≡ true

abbrev pub AreRevoked : ℕ → Database → Type 0
AreRevoked id db = All (IsRevoked id) db.api_keys

All-joined :
    (P : ApiKey → Type 0) (us : List User) (ks : List ApiKey)
    → All P ks
    → All (λ r. P r.0) (joined us ks)
All-joined P us [] h = tt
All-joined P us (k ∷ ks) h =
    All-append (λ r. P r.0) (map (λ u. (k, u)) (select (λ u. u.id == k.owner_id) us)) (joined us ks)
      (beside (select (λ u. u.id == k.owner_id) us)) (All-joined P us ks h.1)
  where
    beside : (us : List User) → All (λ (r : ApiKey × User). P r.0) (map (λ u. (k, u)) us)
    beside [] = tt
    beside (u ∷ us) = (h.0, beside us)

-- After an update the replaced rows and the others have the property.
All-update :
    {A : Type 0} (P : A → Type 0) (p : A → Bool) (v : A) (xs : List A)
    → P v
    → ((x : A) → p x ≡ false → P x)
    → All P (update_where p (λ _. v) xs)
All-update P p v [] hv h = tt
All-update {A = A} P p v (x ∷ xs) hv h = (at_head (p x) refl, All-update P p v xs hv h)
  where
    at_head : (b : Bool) → p x ≡ b → P (if b then v else x)
    at_head true e = hv
    at_head false e = h x e

-- A returned request to revoke leaves no usable row with that id.
revoke_key-AreRevoked :
    (now id : ℕ) (u : User) (db : Database)
    → (get_db (revoke_key now id u) db).0 ≡ ok tt
    → AreRevoked id (get_db (revoke_key now id u) db).1
unfolding revoke_key get_db
revoke_key-AreRevoked now id u db h =
    found (select (λ k. k.id == id && k.owner_id == u.id) db.api_keys) refl
  where
    found :
        (l : List ApiKey)
        → select (λ k. k.id == id && k.owner_id == u.id) db.api_keys ≡ l
        → AreRevoked id (get_db (revoke_key now id u) db).1
    found [] e = absurd (ground (arith, e, h))
    found (x ∷ y ∷ l) e = absurd (ground (arith, e, h))
    found (k ∷ []) e =
        let meets : (k.id == id && k.owner_id == u.id) ≡ true =
          (rw e at (All-select (λ k. k.id == id && k.owner_id == u.id) db.api_keys)).0 in
        let all : AreRevoked id (save_key (revoked now k) db) =
          All-update (IsRevoked id) (λ x. x.id == k.id) (revoked now k) db.api_keys (ground arith)
            (λ x other. ground (arith, other, meets)) in
        let end : (get_db (revoke_key now id u) db).1 ≡ save_key (revoked now k) db =
          ground (arith, e) in
        rw end all

All-first :
    {A : Type 0} (P : A → Type 0) (e : Error) (xs : List A) (x : A)
    → All P xs
    → first_or e xs ≡ ok x
    → P x
All-first P e [] x h first = absurd (ground (arith, first))
All-first P e (y ∷ ys) x h first = let same : y ≡ x = ground (arith, first) in rw (← same) h.0

module _ (hash_api_key : String → String) (id : ℕ) where
  find_principal-live :
      (now : ℕ) (value : String)
      → Keeps
          (AreRevoked id)
          (AreRevoked id)
          (find_principal hash_api_key now value)
          (λ p db. AreRevoked id db × (p.key.id ≢ id))
  unfolding find_principal
  find_principal-live now value =
      Keeps-bind
        (λ rows db.
          AreRevoked id db
          × All (λ (r : ApiKey × User). IsRevoked id r.0) rows
          × All (λ (r : ApiKey × User). is_usable hash_api_key value r.0 ≡ true) rows)
        (Keeps-query (λ db. joined db.users (select (is_usable hash_api_key value) db.api_keys))
          λ db h. (
            h,
            All-joined (IsRevoked id) db.users (select (is_usable hash_api_key value) db.api_keys)
                (All-of_select (IsRevoked id) (is_usable hash_api_key value) db.api_keys h),
            All-joined (λ k. is_usable hash_api_key value k ≡ true) db.users
                (select (is_usable hash_api_key value) db.api_keys)
                (All-select (is_usable hash_api_key value) db.api_keys),
          ))
        λ rows.
          Keeps-bind
            (λ (row : ApiKey × User) db.
              AreRevoked id db × IsRevoked id row.0 × (is_usable hash_api_key value row.0 ≡ true))
            (Keeps-lift (first_or invalid_key rows) λ row db first (h, kept, usable). (
              h,
              All-first (λ (r : ApiKey × User). IsRevoked id r.0) invalid_key rows row kept first,
              All-first (λ (r : ApiKey × User). is_usable hash_api_key value r.0 ≡ true) invalid_key
                  rows row usable first,
            ))
            λ row.
              Keeps-then (λ db. AreRevoked id db × (row.0.id ≢ id))
                (Keeps-write (save_key (used now row.0)) λ db (h, kept, usable). (
                  All-update_to (IsRevoked id) (λ x. x.id == row.0.id) (used now row.0) db.api_keys
                      kept h,
                  ground (arith, kept, usable),
                ))
                (Keeps-pure (record { key = used now row.0; user = row.1 }) (λ db h. h))

  principal-live :
      (now : ℕ) (header : Option String)
      → Keeps
          (AreRevoked id)
          (AreRevoked id)
          (get_api_key_principal hash_api_key now header)
          (λ p db. AreRevoked id db × (p.key.id ≢ id))
  unfolding get_api_key_principal
  principal-live now none = record { at = λ s h saved. saved }
  principal-live now (some String.[]) = record { at = λ s h saved. saved }
  principal-live now (some (String.◌∷◌ c t)) = find_principal-live now (String.◌∷◌ c t)

  create_key-keeps :
      (new : ℕ) (name token : String) (u : User)
      → new ≢ id
      → Keeps
          (AreRevoked id)
          (AreRevoked id)
          (create_key hash_api_key new name token u)
          (λ _. AreRevoked id)
  unfolding create_key
  create_key-keeps new name token u other =
      Keeps-then (AreRevoked id)
        (Keeps-write (add_key (new_key hash_api_key new name token u)) λ db h.
          All-append (IsRevoked id) db.api_keys (new_key hash_api_key new name token u ∷ []) h
            (ground (arith, other), tt))
        (Keeps-pure (new_key hash_api_key new name token u, str_append "sopm_" token) (λ db h. h))

  revoke_key-keeps :
      (now other : ℕ) (u : User)
      → Keeps (AreRevoked id) (AreRevoked id) (revoke_key now other u) (λ _. AreRevoked id)
  unfolding revoke_key
  revoke_key-keeps now other u =
      Keeps-bind (λ k db. AreRevoked id db × IsRevoked id k × _)
        (Keeps-find (λ db. db.api_keys) (λ k. k.id == other && k.owner_id == u.id) key_not_found
          (IsRevoked id) (λ db h. h))
        λ k. Keeps-write (save_key (revoked now k)) λ db (h, _, _).
          All-update_to (IsRevoked id) (λ x. x.id == k.id) (revoked now k) db.api_keys
            (ground arith) h

  -- The requests that work on keys, in any order; new keys get other ids.
  pub data Calls (db : Database) : Database → Type 0 where
    no_call : Calls db db
    creates :
        {mid : Database} (new : ℕ) (name token : String) (u : User)
        → Calls db mid
        → new ≢ id
        → Calls db (get_db (create_key hash_api_key new name token u) mid).1
    revokes :
        {mid : Database} (now other : ℕ) (u : User)
        → Calls db mid
        → Calls db (get_db (revoke_key now other u) mid).1
    authenticates :
        {mid : Database} (now : ℕ) (header : Option String)
        → Calls db mid
        → Calls db (get_db (get_api_key_principal hash_api_key now header) mid).1

  kept_by_all : (db db' : Database) → Calls db db' → AreRevoked id db → AreRevoked id db'
  kept_by_all db _ no_call h = h
  kept_by_all db _ (creates {mid = mid} new name token u before other) h =
      Keeps-get_db mid (create_key-keeps new name token u other) (kept_by_all db mid before h)
  kept_by_all db _ (revokes {mid = mid} now other u before) h =
      Keeps-get_db mid (revoke_key-keeps now other u) (kept_by_all db mid before h)
  kept_by_all db _ (authenticates {mid = mid} now header before) h =
      Keeps-get_db mid (Keeps-weaken _ (principal-live now header) (λ p db x. x.0))
        (kept_by_all db mid before h)

  authenticated :
      (now : ℕ) (header : Option String) (db : Database) (p : ApiKeyPrincipal)
      → AreRevoked id db
      → (get_db (get_api_key_principal hash_api_key now header) db).0 ≡ ok p
      → p.key.id ≢ id
  unfolding get_db
  authenticated now header db p h returns =
      ends (get_api_key_principal hash_api_key now header (record { live = db; saved = db }))
        ((principal-live now header).at (record { live = db; saved = db }) h h) returns
    where
      ends :
          (r : Result ApiKeyPrincipal × Session)
          → Ends (AreRevoked id) (λ p db. AreRevoked id db × (p.key.id ≢ id)) r
          → r.0 ≡ ok p
          → p.key.id ≢ id
      ends (ok p', s) e same = let one : p' ≡ p = ground (arith, same) in rw (← one) e.0.1
      ends (err x, s) e same = absurd (ground (arith, same))

  -- After a request to revoke a key has returned, no request authenticates with that key, whatever
  -- keys were created under other ids, revoked or used in between.
  pub revoked_key_lem :
      (now now' : ℕ) (u : User) (header : Option String) (db db' : Database) (p : ApiKeyPrincipal)
      → (get_db (revoke_key now id u) db).0 ≡ ok tt
      → Calls (get_db (revoke_key now id u) db).1 db'
      → (get_db (get_api_key_principal hash_api_key now' header) db').0 ≡ ok p
      → p.key.id ≢ id
  revoked_key_lem now now' u header db db' p returns calls = authenticated now' header db' p (
      kept_by_all (get_db (revoke_key now id u) db).1 db' calls
        (revoke_key-AreRevoked now id u db returns))
