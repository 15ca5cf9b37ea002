-- ===== src/Auth/Access.antt =====
-- Whom `get_current_user` admits.
use py_faa_s.Prelude.{
  ℕ, ◌/◌, ◌==◌, String, ◌≡◌, refl, ap, sym, ◌∙◌, Bool, true, false, Option, none, some, [], ◌∷◌,
  arith, select, if◌then◌else◌,
}
use py_faa_s.Config.{Settings}
use py_faa_s.Models.{User, Error, ok, err, Result}
use py_faa_s.Session.{Session, scalar_one_or_none, scalar-some, scalar-select}
use py_faa_s.Auth.{
  Claims, Security, get_current_user, decode_token, invalid_credentials, subject_of, is_kind,
  active_user, find_user,
}

module _ (security : Security) (settings : Settings) where
  -- The user of an access token that has not expired, alone under the id of its subject and active; or
  -- an exception. Either way the session is as it was.
  pub data Admits (now : ℕ) (token : String) (s : Session) : Result User × Session → Type 0 where
    admitted :
        (user : User) (c : Claims) (subject : String)
        → security.decode (now / 1000000) token ≡ some c
        → is_kind "access" c.kind ≡ true
        → c.sub ≡ some subject
        → security.uuid subject ≡ some user.id
        → select (λ u. u.id == user.id) s.live.users ≡ user ∷ []
        → user.is_active ≡ true
        → Admits now token s (ok user, s)
    rejected : (exc : Error) → Admits now token s (err exc, s)

  subject-ok :
      (k : String) (e : Error) (o : Option Claims) (subject : String)
      → subject_of security settings k e o ≡ ok subject
      → (c : Claims) × (o ≡ some c) × (is_kind k c.kind ≡ true) × (c.sub ≡ some subject)
  subject-ok k e none subject h = cc
  subject-ok k e (some c) subject h = (c, refl, ground arith, ground arith)

  active-found :
      (e : Error) (now : ℕ) (token : String) (s : Session) (c : Claims) (subject : String) (id : ℕ)
      (found : Result (Option User))
      → security.decode (now / 1000000) token ≡ some c
      → is_kind "access" c.kind ≡ true
      → c.sub ≡ some subject
      → security.uuid subject ≡ some id
      → scalar_one_or_none (select (λ u. u.id == id) s.live.users) ≡ found
      → Admits now token s
          (elim found [ ok o ↦ (active_user security settings e o, s) | err x ↦ (err x, s) ])
  active-found e now token s c subject id (err x) hd hk hs hu hf = rejected x
  active-found e now token s c subject id (ok none) hd hk hs hu hf = rejected e
  active-found e now token s c subject id (ok (some user)) hd hk hs hu hf =
      active user.is_active refl
    where
      same_id : user.id ≡ id
      same_id = ground (arith, scalar-select (λ u. u.id == id) s.live.users user hf)

      alone : select (λ u. u.id == user.id) s.live.users ≡ user ∷ []
      alone =
          ap (λ (k : ℕ). select (λ u. u.id == k) s.live.users) same_id
          ∙ scalar-some (select (λ u. u.id == id) s.live.users) user hf

      active :
          (b : Bool) → user.is_active ≡ b → Admits now token s (if b then ok user else err e, s)
      active true h = admitted user c subject hd hk hs (hu ∙ ap some (sym same_id)) alone h
      active false h = rejected e

  id-found :
      (e : Error) (now : ℕ) (token : String) (s : Session) (c : Claims) (subject : String)
      (o : Option ℕ)
      → security.decode (now / 1000000) token ≡ some c
      → is_kind "access" c.kind ≡ true
      → c.sub ≡ some subject
      → security.uuid subject ≡ o
      → Admits now token s (find_user security settings e subject s)
  id-found e now token s c subject none hd hk hs hu = rw hu (rejected _)
  id-found e now token s c subject (some id) hd hk hs hu =
      rw hu (active-found e now token s c subject id _ hd hk hs hu refl)

  -- Whoever `get_current_user` admits is an active user that is alone with their id, and the token is a
  -- genuine access token for that id that has not expired. Any other request gets an exception, and no
  -- request changes the session.
  pub get_current_user-Admits :
      (now : ℕ) (token : String) (s : Session)
      → Admits now token s (get_current_user security settings now token s)
  unfolding get_current_user decode_token
  get_current_user-Admits now token s =
      found
        (subject_of security settings "access" invalid_credentials
          (security.decode (now / 1000000) token))
        refl
    where
      found :
          (r : Result String)
          → subject_of security settings "access" invalid_credentials
              (security.decode (now / 1000000) token)
            ≡ r
          → Admits now token s (get_current_user security settings now token s)
      found (err e) h = rw h (rejected e)
      found (ok subject) h =
          let (c, hd, hk, hs) = subject-ok "access" invalid_credentials _ subject h in
          rw h (id-found invalid_credentials now token s c subject _ hd hk hs refl)
