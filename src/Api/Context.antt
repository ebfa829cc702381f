-- ===== src/Api/Context.antt =====
-- src/internal/api/apicontext and the error codes of src/internal/api/v1/errors.go.
use unet.Base.{ℕ, Text, codes}

pub record AuthInfo : Type 0 where
  pub token_id : Text
  pub token_name : Text
  pub scope : Text
  pub source : Text
  pub session_id : Text

abbrev pub localhost : Text
localhost = codes "localhost"

pub data ErrorCode : Type 0 where
  unauthorized forbidden_scope rate_limited bad_request name_conflict internal_error : ErrorCode

-- How a request leaves a middleware: an error response with its HTTP status, the call of the next
-- handler, or a panic.
pub data Outcome {ℓ} (A : Type ℓ) : Type ℓ where
  rejected : ℕ → ErrorCode → Outcome A
  passed : A → Outcome A
  panicked : Outcome A

infixl 5 ◌>>=◌
abbrev pub ◌>>=◌ {ℓ κ} : {A : Type ℓ} {B : Type κ} → Outcome A → (A → Outcome B) → Outcome B
rejected s c >>= f = rejected s c
passed a >>= f = f a
panicked >>= f = panicked
