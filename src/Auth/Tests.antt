-- ===== src/Auth/Tests.antt =====
-- Registration, login and a request, with tokens that are their claims written out.
use text.Mathlib.TextLemmas.{cons-ne-nil}
use py_faa_s.Prelude.{
  Bool-cases, inl, inr, ℕ, zero, suc, ltb, String, str_eq, ◌≡◌, refl, false, Option, none, some,
  arith, eq_iff, ap, if◌then◌else◌,
}
use py_faa_s.Config.{default_settings}
use py_faa_s.Models.{User, ok, err, multiple_results}
use py_faa_s.Session.{Session, get_db}
use py_faa_s.Session.Samples.{db}
use py_faa_s.Auth.{
  Claims, TokenType, access, refresh, issued, Security, UserRegisterRequest, register, login,
  get_current_user, refresh_token, tokens, new_user, add_user, create_access_token,
  create_refresh_token, invalid_credentials, invalid_refresh,
}
use py_faa_s.Auth.Tokens.{tokens_of_other_kind, register-get_current_user}
use py_faa_s.Auth.Access.{Admits, get_current_user-Admits}

-- A number in strokes, a point, and a text.
abbrev strokes : ℕ → String → String
strokes zero t = String.◌∷◌ "." t
strokes (suc n) t = String.◌∷◌ "i" (strokes n t)

abbrev one_more : ℕ × String → ℕ × String
one_more (n, t) = (suc n, t)

abbrev split : String → ℕ × String
split String.[] = (0, "")
split (String.◌∷◌ c s) = if str_eq (String.◌∷◌ c "") "i" then one_more (split s) else (0, s)

split-strokes : (n : ℕ) (t : String) → split (strokes n t) ≡ (n, t)
split-strokes zero t = refl
split-strokes (suc n) t = ap one_more (split-strokes n t)

abbrev text_or : Option String → String
text_or none = ""
text_or (some t) = t

abbrev encode : Claims → String
encode c =
    String.◌∷◌ (if str_eq (text_or c.kind) "access" then "a" else "r")
      (strokes c.exp (text_or c.sub))

abbrev read_claims : TokenType → ℕ → ℕ × String → Option Claims
read_claims t now (exp, subject) = if ltb exp now then none else some (issued t subject exp)

abbrev decode : ℕ → String → Option Claims
decode now String.[] = none
decode now (String.◌∷◌ c s) =
    read_claims (if str_eq (String.◌∷◌ c "") "a" then access else refresh) now (split s)

decode-encode :
    (now : ℕ) (t : TokenType) (subject : String) (exp : ℕ)
    → decode now (encode (issued t subject exp))
      ≡ (if ltb exp now then none else some (issued t subject exp))
decode-encode now access subject exp = ap (read_claims access now) (split-strokes exp subject)
decode-encode now refresh subject exp = ap (read_claims refresh now) (split-strokes exp subject)

strokes_truthy : (n : ℕ) → str_eq (strokes n "") "" ≡ false
strokes_truthy zero = refl
strokes_truthy (suc n) = elim (Bool-cases (str_eq (strokes (suc n) "") "")) [
  | inl e ↦ absurd (cons-ne-nil "i" (strokes n "") ((eq_iff _ _).0 e))
  | inr e ↦ e
]

abbrev plain : Security
plain = record {
  encode = encode;
  decode = decode;
  decode-encode = decode-encode;
  hashpw = λ salt password. password;
  checkpw = str_eq;
  checkpw-hashpw = λ salt password. (eq_iff password password).1 refl;
  str_uuid = λ id. strokes id "";
  uuid = λ t. some (split t).0;
  uuid-str_uuid = λ id. ap (λ (r : ℕ × String). some r.0) (split-strokes id "");
  str_uuid_truthy = strokes_truthy;
}

abbrev bob : UserRegisterRequest
bob = record { username = "bob"; email = "bob@example.com"; password = "secret" }

abbrev at_once : Session
at_once = record { live = db; saved = db }

tokens_of_other_kind_example :
    (get_current_user plain default_settings 5
        (create_refresh_token plain default_settings 0 "i.")
        at_once
      ≡ (err invalid_credentials, at_once))
    × (refresh_token plain default_settings 5
          (create_access_token plain default_settings 0 "i.")
          at_once
        ≡ (err invalid_refresh, at_once))
tokens_of_other_kind_example = tokens_of_other_kind plain default_settings 0 5 "i." at_once

register-get_current_user_example :
    let user = new_user plain default_settings 2 "salt" bob in
    let db' = add_user user db in
    (get_db (register plain default_settings 2 "salt" bob) db ≡ (ok user, db'))
    × (get_db (login plain default_settings 0 "bob" "secret") db'
        ≡ (ok (tokens plain default_settings 0 user), db'))
    × (get_db
          (get_current_user plain default_settings 3600000000
            (tokens plain default_settings 0 user).access_token)
          db'
        ≡ (ok user, db'))
register-get_current_user_example =
    register-get_current_user plain default_settings 2 "salt" bob db 0 3600000000 refl refl
      (omega arith)

get_current_user-Admits_example :
    Admits plain default_settings 5 "ai.i." at_once
      (get_current_user plain default_settings 5 "ai.i." at_once)
get_current_user-Admits_example = get_current_user-Admits plain default_settings 5 "ai.i." at_once

-- The name of one user with the address of another is met by two rows, and the query for one raises.
abbrev carol : User
carol =
    new_user plain default_settings 3 "salt"
      (record { username = "carol"; email = "carol@example.com"; password = "secret" })

abbrev mixed : UserRegisterRequest
mixed = record { username = "alice"; email = "carol@example.com"; password = "secret" }

mixed_up_raises :
    (get_db (register plain default_settings 4 "salt" mixed) (add_user carol db)).0
    ≡ err multiple_results
unfolding register get_db
mixed_up_raises = refl
