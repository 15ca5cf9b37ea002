-- ===== src/Auth.antt =====
-- api/routers/auth.py, api/dependencies/deps.py and shared/security/auth.py: registration, login,
-- refresh and the current user. bcrypt, the JWT library and the text of a UUID are parameters; `now`
-- is the clock, in microseconds, and the salt is an argument.
pub mod Access
pub mod Tokens
mod Tests
use py_faa_s.Prelude.{
  ℕ, suc, ◌+◌, ◌-◌, ◌*◌, ◌/◌, ◌≤◌, ◌==◌, ◌&&◌, ◌||◌, ltb, not, is_some, String, str_eq, ◌≡◌, Bool,
  true, false, Option, none, some, List, [], ◌∷◌, ◌++◌, if◌then◌else◌, select,
}
use py_faa_s.Config.{Settings}
use py_faa_s.Models.{User, Error, http, value_error, text, Result, ok, err}
use py_faa_s.Session.{
  Database, Session, Action, pure, raise, lift, ◌>>=◌, ◌>>◌, query, write, raise_if,
  scalar_one_or_none, or_raise,
}

-- The claims of a token; `exp` is in seconds.
pub record Claims : Type 0 where
  pub sub : Option String
  pub exp : ℕ
  pub kind : Option String

-- The two types of token that the platform issues.
pub data TokenType : Type 0 where
  access refresh : TokenType

abbrev pub type_text : TokenType → String
type_text access = "access"
type_text refresh = "refresh"

abbrev pub issued : TokenType → String → ℕ → Claims
issued t subject exp = record { sub = some subject; exp = exp; kind = some (type_text t) }

-- `jwt.encode` and `jwt.decode` with the platform's key, where `now` is in seconds: a decoded token is
-- genuine and has not expired. `bcrypt` accepts the password that a hash was made of.
pub record Security : Type 0 where
  pub encode : Claims → String
  pub decode : ℕ → String → Option Claims
  pub decode-encode :
      (now : ℕ) (t : TokenType) (subject : String) (exp : ℕ)
      → decode now (encode (issued t subject exp))
        ≡ (if ltb exp now then none else some (issued t subject exp))
  pub hashpw : String → String → String
  pub checkpw : String → String → Bool
  pub checkpw-hashpw : (salt password : String) → checkpw password (hashpw salt password) ≡ true
  pub str_uuid : ℕ → String
  pub uuid : String → Option ℕ
  pub uuid-str_uuid : (id : ℕ) → uuid (str_uuid id) ≡ some id
  pub str_uuid_truthy : (id : ℕ) → str_eq (str_uuid id) "" ≡ false

pub record UserRegisterRequest : Type 0 where
  pub username : String
  pub email : String
  pub password : String

pub record TokenResponse : Type 0 where
  pub access_token : String
  pub refresh_token : String
  pub token_type : String
  pub expires_in : ℕ

abbrev pub already_registered : Error
already_registered = http 409 (text "Username or email already registered")

abbrev pub incorrect_login : Error
incorrect_login = http 401 (text "Incorrect username or password")

abbrev pub inactive_account : Error
inactive_account = http 403 (text "Account is inactive")

abbrev pub invalid_refresh : Error
invalid_refresh = http 401 (text "Invalid refresh token")

abbrev pub invalid_credentials : Error
invalid_credentials = http 401 (text "Could not validate credentials")

abbrev pub superuser_required : Error
superuser_required = http 403 (text "Superuser privileges required")

abbrev pub is_taken : UserRegisterRequest → User → Bool
is_taken body u = str_eq u.username body.username || str_eq u.email body.email

abbrev pub add_user : User → Database → Database
add_user u db = record db { users = db.users ++ u ∷ [] }

abbrev pub is_kind : String → Option String → Bool
is_kind k none = false
is_kind k (some t) = str_eq t k

module _ (security : Security) (settings : Settings) where
  open security use {encode, decode, hashpw, checkpw, str_uuid, uuid}

  abbrev pub new_user : ℕ → String → UserRegisterRequest → User
  new_user id salt body = record {
    id = id;
    username = body.username;
    email = body.email;
    hashed_password = hashpw salt body.password;
    is_active = true;
    is_superuser = false;
  }

  unfoldable pub register : ℕ → String → UserRegisterRequest → Action Session User
  register id salt body = do
    rows ← query (λ db. select (is_taken body) db.users)
    existing ← lift (scalar_one_or_none rows)
    raise_if (is_some existing) already_registered
    write (add_user (new_user id salt body))
    pure (new_user id salt body)

  -- The expiry is cut to whole seconds.
  unfoldable pub create_access_token : ℕ → String → String
  create_access_token now subject = encode (
      issued access subject ((now + settings.access_token_expire_minutes * 60 * 1000000) / 1000000))

  unfoldable pub create_refresh_token : ℕ → String → String
  create_refresh_token now subject = encode (
      issued refresh subject
        ((now + settings.refresh_token_expire_days * 24 * 3600 * 1000000) / 1000000))

  unfoldable pub decode_token : ℕ → String → Option Claims
  decode_token now token = decode (now / 1000000) token

  abbrev pub tokens : ℕ → User → TokenResponse
  tokens now user = record {
    access_token = create_access_token now (str_uuid user.id);
    refresh_token = create_refresh_token now (str_uuid user.id);
    token_type = "bearer";
    expires_in = settings.access_token_expire_minutes * 60;
  }

  abbrev pub checked_login : String → Option User → Result User
  checked_login password none = err incorrect_login
  checked_login password (some user) =
      if checkpw password user.hashed_password then ok user else err incorrect_login

  unfoldable pub login : ℕ → String → String → Action Session TokenResponse
  unfolding create_access_token create_refresh_token
  login now username password = do
    rows ← query (λ db. select (λ u. str_eq u.username username) db.users)
    found ← lift (scalar_one_or_none rows)
    user ← lift (checked_login password found)
    raise_if (not user.is_active) inactive_account
    pure (tokens now user)

  -- `payload.get("sub")` of a token of the right type.
  abbrev pub subject_of : String → Error → Option Claims → Result String
  subject_of k e none = err e
  subject_of k e (some c) = if is_kind k c.kind then given c.sub else err e
    where
      given : Option String → Result String
      given none = err e
      given (some s) = ok s

  -- `UUID(user_id)` raises ValueError for a text that is no UUID.
  abbrev pub parsed_id : Option ℕ → Result ℕ
  parsed_id none = err (value_error (text "badly formed hexadecimal UUID string"))
  parsed_id (some id) = ok id

  -- `if user is None or not user.is_active`
  abbrev pub active_user : Error → Option User → Result User
  active_user e none = err e
  active_user e (some user) = if user.is_active then ok user else err e

  abbrev pub find_user : Error → String → Action Session User
  find_user e user_id = do
    id ← lift (parsed_id (uuid user_id))
    rows ← query (λ db. select (λ u. u.id == id) db.users)
    found ← lift (scalar_one_or_none rows)
    lift (active_user e found)

  unfoldable pub refresh_token : ℕ → String → Action Session TokenResponse
  unfolding create_access_token create_refresh_token decode_token
  refresh_token now token = do
    user_id ← lift (subject_of "refresh" invalid_refresh (decode_token now token))
    raise_if (str_eq user_id "") invalid_refresh
    user ← find_user invalid_refresh user_id
    pure (tokens now user)

  unfoldable pub get_current_user : ℕ → String → Action Session User
  unfolding decode_token
  get_current_user now token = do
    user_id ← lift (subject_of "access" invalid_credentials (decode_token now token))
    find_user invalid_credentials user_id

unfoldable pub get_current_superuser : User → Action Session User
get_current_superuser current_user = do
  raise_if (not current_user.is_superuser) superuser_required
  pure current_user

-- The offset and the limit of a page; the framework admits pages from 1 on and sizes from 1 to 100.
unfoldable pub pagination_params : ℕ → ℕ → ℕ × ℕ
pagination_params page page_size = ((page - 1) * page_size, page_size)
