-- ===== src/Models/Errors.antt =====
-- The execution states, and what a raised exception carries: `HTTPException` with its status code
-- and detail, `ValueError`, the error of a query that meets several rows, the Kubernetes client's
-- `ApiException` with its status and reason, and any other exception.
use py_faa_s.Prelude.{ℕ, String, Bool, true, false}

pub data ExecutionStatus : Type 0 where
  pending queued running completed failed timed_out cancelled : ExecutionStatus

-- The text of an error: `invalid_transition` is the message of `validate_transition`.
pub data Detail : Type 0 where
  text : String → Detail
  invalid_transition : ExecutionStatus → ExecutionStatus → Detail
  api_text : ℕ → String → Detail

pub data Error : Type 0 where
  http : ℕ → Detail → Error
  value_error : Detail → Error
  multiple_results : Error
  api_exception : ℕ → String → Error
  raised : Detail → Error

-- `str(exc)`
abbrev pub error_text : Error → Detail
error_text (http code d) = d
error_text (value_error d) = d
error_text multiple_results = text "Multiple rows were found when one or none was required"
error_text (api_exception status reason) = api_text status reason
error_text (raised d) = d

pub data Result {ℓ} (A : Type ℓ) : Type ℓ where
  ok : A → Result A
  err : Error → Result A

infixl 5 ◌>>=◌ ◌>>◌
abbrev pub ◌>>=◌ {ℓ κ} : {A : Type ℓ} {B : Type κ} → Result A → (A → Result B) → Result B
ok a >>= f = f a
err e >>= f = err e

abbrev pub ◌>>◌ {ℓ κ} : {A : Type ℓ} {B : Type κ} → Result A → Result B → Result B
m >> k = m >>= λ _. k

-- Whether the call returned.
abbrev pub succeeded {ℓ} : {A : Type ℓ} → Result A → Bool
succeeded (ok _) = true
succeeded (err _) = false
