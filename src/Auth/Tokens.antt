-- ===== src/Auth/Tokens.antt =====
-- From registration to a request: what the tokens of a login are good for.
use py_faa_s.Prelude.{
  ℕ, ◌+◌, ◌*◌, ◌/◌, ◌≤◌, ltb, ◌==◌, String, str_eq, eq_iff, ◌≡◌, refl, Bool, true, false, none,
  some, List, [], ◌∷◌, ◌++◌, arith, select, ==-refl, if◌then◌else◌,
}
use py_faa_s.Prelude.Rows.{select-append_one}
use py_faa_s.Config.{Settings}
use py_faa_s.Models.{User, Error, ok, err}
use py_faa_s.Session.{Database, Session, get_db}
use py_faa_s.Auth.{
  TokenType, access, refresh, type_text, issued, Security, UserRegisterRequest, register, login,
  get_current_user, refresh_token, create_access_token, create_refresh_token, decode_token, tokens,
  new_user, add_user, is_taken, invalid_credentials, invalid_refresh, subject_of,
}

str_eq_self : (s : String) → str_eq s s ≡ true
str_eq_self s = (eq_iff s s).1 refl

-- A user whose name is taken is met by the query for names and addresses.
names-none :
    (body : UserRegisterRequest) (users : List User)
    → select (is_taken body) users ≡ []
    → select (λ u. str_eq u.username body.username) users ≡ []
names-none body [] h = refl
names-none body (u ∷ users) h = ground (arith, h, names-none body users (ground (arith, h)))

le→ltb : (a b : ℕ) → b ≤ a → ltb a b ≡ false
le→ltb a b h = ground arith

module _ (security : Security) (settings : Settings) where
  wrong_subject :
      (k : String) (t : TokenType) (subject : String) (e : Error) (now exp : ℕ)
      → str_eq (type_text t) k ≡ false
      → subject_of security settings k e
          (security.decode now (security.encode (issued t subject exp)))
        ≡ err e
  wrong_subject k t subject e now exp h =
      rw (security.decode-encode now t subject exp) (cases (ltb exp now))
    where
      cases :
          (b : Bool)
          → subject_of security settings k e (if b then none else some (issued t subject exp))
            ≡ err e
      cases true = refl
      cases false = rw h refl

  right_subject :
      (t : TokenType) (subject : String) (e : Error) (now exp : ℕ)
      → now ≤ exp
      → subject_of security settings
          (type_text t)
          e
          (security.decode now (security.encode (issued t subject exp)))
        ≡ ok subject
  right_subject t subject e now exp h =
      rw (security.decode-encode now t subject exp, le→ltb exp now h, str_eq_self (type_text t))
        refl

  -- A refresh token is no access token and an access token is no refresh token: whatever the subject,
  -- the times and the database are, a request with the first and a refresh with the second are refused
  -- with 401 and change nothing.
  pub tokens_of_other_kind :
      (issued_at now : ℕ) (subject : String) (s : Session)
      → (get_current_user security settings now
            (create_refresh_token security settings issued_at subject)
            s
          ≡ (err invalid_credentials, s))
        × (refresh_token security settings now
              (create_access_token security settings issued_at subject)
              s
            ≡ (err invalid_refresh, s))
  unfolding get_current_user refresh_token create_access_token create_refresh_token decode_token
  tokens_of_other_kind issued_at now subject s = (
    rw (wrong_subject "access" refresh subject invalid_credentials (now / 1000000) _ refl) refl,
    rw (wrong_subject "refresh" access subject invalid_refresh (now / 1000000) _ refl) refl,
  )

  -- Who registers with a name and an address that nobody has, under a fresh id, can log in with the
  -- password, and the access token of that login is theirs until it expires: login and request leave
  -- the database as the registration made it.
  pub register-get_current_user :
      (id : ℕ) (salt : String) (body : UserRegisterRequest) (db : Database) (issued_at now : ℕ)
      → select (is_taken body) db.users ≡ []
      → select (λ u. u.id == id) db.users ≡ []
      → now / 1000000 ≤ (issued_at + settings.access_token_expire_minutes * 60 * 1000000) / 1000000
      → let user = new_user security settings id salt body in
        let db' = add_user user db in
        (get_db (register security settings id salt body) db ≡ (ok user, db'))
        × (get_db (login security settings issued_at body.username body.password) db'
            ≡ (ok (tokens security settings issued_at user), db'))
        × (get_db
              (get_current_user security settings now
                (tokens security settings issued_at user).access_token)
              db'
            ≡ (ok user, db'))
  unfolding register login get_current_user create_access_token create_refresh_token decode_token
      get_db
  register-get_current_user id salt body db issued_at now free fresh valid = (
    rw free refl,
    rw (named, security.checkpw-hashpw salt body.password) refl,
    rw
        (
          right_subject access (security.str_uuid id) invalid_credentials (now / 1000000) _ valid,
          security.uuid-str_uuid id,
          keyed,
        )
        refl,
  )
    where
      user : User
      user = new_user security settings id salt body

      named : select (λ u. str_eq u.username body.username) (db.users ++ user ∷ []) ≡ user ∷ []
      named =
          select-append_one (λ u. str_eq u.username body.username) db.users user
            (names-none body db.users free) (str_eq_self body.username)

      keyed : select (λ u. u.id == id) (db.users ++ user ∷ []) ≡ user ∷ []
      keyed = select-append_one (λ u. u.id == id) db.users user fresh (==-refl id)
