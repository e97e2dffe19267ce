-- ===== src/Service/Identity.antt =====
-- The access tokens of internal/service/token.go name the user for whom they were made.
use taskflow_api.Base.{suc, String, ◌≡◌, true, pos, ◌+ℤ◌, ◌≤ℤ◌}
use taskflow_api.Domain.{Int64, Instant}
use taskflow_api.Domain.Errors.{Result, ok}
use taskflow_api.Store.{Env, World}
use taskflow_api.Strconv.{format_int}
use taskflow_api.Service.Tokens.{Jwt, TokenManager, RegisteredClaims, SigningMethod, hmac}

-- github.com/golang-jwt/jwt/v5 accepts, before it expires, a token that it signed by HS256, if the
-- key function gives the secret for that method, and gives its claims back.
abbrev pub IsJwt : Jwt → Type 0
IsJwt jwt =
    (secret token : String) (claims : RegisteredClaims) (now : Instant)
    (key : SigningMethod → Result String)
    → jwt.signed_string secret claims ≡ ok token
    → (now +ℤ pos 1) ≤ℤ claims.expires_at
    → key (hmac "HS256") ≡ ok secret
    → jwt.parse_with_claims now token key ≡ ok (claims, true)

-- The claims of a token that is generated in a world.
abbrev pub claims_of : Env → Jwt → TokenManager → Int64 → World → RegisteredClaims
claims_of env jwt m user_id w = record {
  subject = format_int user_id;
  issued_at = jwt.numeric_date (env.app_now w.step);
  expires_at = jwt.numeric_date (env.app_now (suc w.step) +ℤ m.expires_in);
}
