-- ===== src/Service/Tokens.antt =====
-- internal/service/token.go. The JWT library is a parameter.
use taskflow_api.Base.{String, Bool, true, false, Option, none, some, ℤ, ◌+ℤ◌}
use taskflow_api.Domain.{Instant, Int64}
use taskflow_api.Domain.Errors.{other, Result, ok, err}
use taskflow_api.Store.{Env, Io, ◌>>=◌, map_err, wrap, time_now}
use Prim.Native.String.{◌++◌ as str_append}
use taskflow_api.Strconv.{NumError, syntax, range, format_int, parse_int}

pub record RegisteredClaims : Type 0 where
  pub subject : String
  pub issued_at : Instant
  pub expires_at : Instant

-- The method that a token's header names: `*jwt.SigningMethodHMAC` or another type.
pub data SigningMethod : Type 0 where
  hmac : String → SigningMethod
  another : String → SigningMethod

-- github.com/golang-jwt/jwt/v5
pub record Jwt : Type 0 where
  pub numeric_date : Instant → Instant
  -- `NewWithClaims(SigningMethodHS256, claims).SignedString(secret)`
  pub signed_string : String → RegisteredClaims → Result String
  -- `ParseWithClaims` at an instant, with the function that gives the key; and `token.Valid`.
  pub parse_with_claims :
      Instant → String → (SigningMethod → Result String) → Result (RegisteredClaims × Bool)

pub record TokenManager : Type 0 where
  pub secret : String
  pub expires_in : ℤ

-- The key function of `Validate`.
unfoldable pub key_for : String → SigningMethod → Result String
key_for secret (hmac alg) = ok secret
key_for secret (another alg) = err (other (str_append "unexpected signing method: " alg))

abbrev num_error_text : String → NumError → String
num_error_text s syntax =
    str_append "strconv.ParseInt: parsing \"" (str_append s "\": invalid syntax")
num_error_text s range =
    str_append "strconv.ParseInt: parsing \"" (str_append s "\": value out of range")

abbrev subject_id : String → ℤ × Option NumError → Result Int64
subject_id s (id, none) = ok id
subject_id s (id, some e) = err (wrap "invalid token subject: " (other (num_error_text s e)))

-- The end of `Validate`: the library's verdict, then the subject.
unfoldable pub check_token : RegisteredClaims × Bool → Result Int64
check_token (claims, false) = err (other "invalid token")
check_token (claims, true) = subject_id claims.subject (parse_int claims.subject)

module _ (env : Env) (jwt : Jwt) (m : TokenManager) where
  unfoldable pub generate : Int64 → Io String
  generate user_id = do
    issued ← time_now env
    now ← time_now env
    λ w. (
      jwt.signed_string m.secret (record {
        subject = format_int user_id;
        issued_at = jwt.numeric_date issued;
        expires_at = jwt.numeric_date (now +ℤ m.expires_in);
      }),
      w,
    )

  unfoldable pub validate : String → Io Int64
  unfolding check_token
  validate token = do
    now ← time_now env
    parsed ←
        map_err (wrap "parse token: ")
          (λ w. (jwt.parse_with_claims now token (key_for m.secret), w))
    λ w. (check_token parsed, w)
