-- ===== src/Domain/Errors.antt =====
-- internal/domain/errors.go, and errors.Is, errors.As and == on the errors of the program.
use taskflow_api.Base.{◌≡◌, refl, ◌⊎◌, inl, inr, String, Bool, true, false, str_eq}
use Prim.Native.String.{◌++◌ as str_append}

-- The sentinel errors of the package domain.
pub data Sentinel : Type 0 where
  not_found already_exists invalid_credentials forbidden validation token_invalid : Sentinel

-- A Go error value: a sentinel, one that `fmt.Errorf` wraps by `%w` between two texts, the
-- `sql.ErrNoRows` of database/sql, an error of the server with its SQLSTATE and message, or any
-- other error, which wraps nothing.
pub data Error : Type 0 where
  sentinel : Sentinel → Error
  wrapf : String → Error → String → Error
  no_rows : Error
  pg_error : String → String → Error
  other : String → Error

abbrev pub text_of : Sentinel → String
text_of not_found = "resource not found"
text_of already_exists = "resource already exists"
text_of invalid_credentials = "invalid email or password"
text_of forbidden = "you do not have access to this resource"
text_of validation = "validation failed"
text_of token_invalid = "invalid or expired refresh token"

-- `err.Error()`
unfoldable pub error_text : Error → String
error_text (sentinel s) = text_of s
error_text (wrapf before e after) = str_append before (str_append (error_text e) after)
error_text no_rows = "sql: no rows in result set"
error_text (pg_error code message) =
    str_append message (str_append " (SQLSTATE " (str_append code ")"))
error_text (other message) = message

abbrev pub eq_sentinel : Sentinel → Sentinel → Bool
eq_sentinel not_found not_found = true
eq_sentinel already_exists already_exists = true
eq_sentinel invalid_credentials invalid_credentials = true
eq_sentinel forbidden forbidden = true
eq_sentinel validation validation = true
eq_sentinel token_invalid token_invalid = true
eq_sentinel _ _ = false

-- `err == domain.ErrX`: a wrapped sentinel is another value.
abbrev pub equals : Error → Sentinel → Bool
equals (sentinel s) t = eq_sentinel s t
equals _ t = false

-- `errors.Is(err, domain.ErrX)` looks through the wrapping.
unfoldable pub is : Error → Sentinel → Bool
is (sentinel s) t = eq_sentinel s t
is (wrapf before e after) t = is e t
is no_rows t = false
is (pg_error code message) t = false
is (other message) t = false

-- `errors.Is(err, sql.ErrNoRows)`
unfoldable pub is_no_rows : Error → Bool
is_no_rows (wrapf before e after) = is_no_rows e
is_no_rows no_rows = true
is_no_rows _ = false

-- internal/repository/postgres_errors.go
unfoldable pub is_unique_violation : Error → Bool
is_unique_violation (wrapf before e after) = is_unique_violation e
is_unique_violation (pg_error code message) = str_eq code "23505"
is_unique_violation _ = false

pub data Result {ℓ} (A : Type ℓ) : Type ℓ where
  ok : A → Result A
  err : Error → Result A

pub Result-cases {ℓ} :
    {A : Type ℓ} (r : Result A) → ((a : A) × (r ≡ ok a)) ⊎ ((e : Error) × (r ≡ err e))
Result-cases (ok a) = inl (a, refl)
Result-cases (err e) = inr (e, refl)
