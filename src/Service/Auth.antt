-- ===== src/Service/Auth.antt =====
-- internal/service/auth_service.go
use taskflow_api.Base.{suc, String, none, some, if◌then◌else◌, ℤ, ◌+ℤ◌}
use taskflow_api.Domain.{User, RefreshToken, Int64, expired, revoked, zero_id, zero_time}
use taskflow_api.Domain.Errors.{
  Sentinel, not_found, invalid_credentials, token_invalid, Error, sentinel, equals,
}
use taskflow_api.Store.{Env, Io, ◌>>=◌, ◌>>◌, return, raise, map_err, wrap, time_now}
use taskflow_api.Repository.Interfaces.{UserRepository, RefreshTokenRepository}
use taskflow_api.Service.RefreshTokens.{Crypto, hash_refresh_token, generate_refresh_token}
use taskflow_api.Service.Tokens.{Jwt, TokenManager, generate}

pub record AuthService : Type 0 where
  pub users : UserRepository
  pub refresh_tokens : RefreshTokenRepository
  pub tokens : TokenManager
  pub refresh_ttl : ℤ

-- `if err == domain.ErrNotFound { return …, replacement }`
abbrev hide_not_found : Sentinel → Error → Error
hide_not_found replacement e = if equals e not_found then sentinel replacement else e

module _ (env : Env) (crypto : Crypto) (jwt : Jwt) (s : AuthService) where
  -- The access token, and the refresh token's plaintext.
  unfoldable pub issue_token_pair : Int64 → Io (String × String)
  issue_token_pair user_id = do
    access_token ← map_err (wrap "generate access token: ") (generate env jwt s.tokens user_id)
    pair ← generate_refresh_token env crypto
    now ← time_now env
    map_err (wrap "persist refresh token: ") (
        s.refresh_tokens.create (record {
          id = zero_id;
          user_id = user_id;
          token_hash = pair.1;
          expires_at = now +ℤ s.refresh_ttl;
          revoked_at = none;
          created_at = zero_time;
        }))
    return (access_token, pair.0)

  -- bcrypt draws its salt.
  unfoldable pub hash_password : String → Io String
  hash_password password w =
      (crypto.generate_from_password w.step password, record w { step = suc w.step })

  unfoldable pub signup : String → String → Io (User × String × String)
  signup email password = do
    hash ← map_err (wrap "hash password: ") (hash_password password)
    user ←
        s.users.create
          (record { id = zero_id; email = email; password_hash = hash; created_at = zero_time })
    pair ← issue_token_pair user.id
    return (user, pair.0, pair.1)

  -- The comparison that `Login` ends with.
  unfoldable pub check_password : String → User → Io (User × String × String)
  check_password password user =
      elim (crypto.compare_hash_and_password user.password_hash password) [
        | none ↦ do pair ← issue_token_pair user.id; return (user, pair.0, pair.1)
        | some e ↦ raise (sentinel invalid_credentials)
      ]

  unfoldable pub login : String → String → Io (User × String × String)
  unfolding check_password
  login email password = do
    user ← map_err (hide_not_found invalid_credentials) (s.users.find_by_email email)
    check_password password user

  -- The three ways in which `Refresh` goes on from the row that it found: a token that was used
  -- before, a token that has expired, and a token that is spent on a new pair.
  unfoldable pub revoke_family : RefreshToken → Io (String × String)
  revoke_family existing = do
    map_err (wrap "revoke all refresh tokens after reuse detected: ")
        (s.refresh_tokens.revoke_all_for_user existing.user_id)
    raise (sentinel token_invalid)

  unfoldable pub spend : RefreshToken → Io (String × String)
  spend existing = do
    map_err (wrap "revoke used refresh token: ") (s.refresh_tokens.revoke existing.id)
    issue_token_pair existing.user_id

  unfoldable pub exchange : RefreshToken → Io (String × String)
  exchange existing = do
    now ← time_now env
    if expired existing now then raise (sentinel token_invalid) else spend existing

  unfoldable pub rotate : RefreshToken → Io (String × String)
  rotate existing = if revoked existing then revoke_family existing else exchange existing

  unfoldable pub refresh : String → Io (String × String)
  refresh plaintext = do
    existing ←
        map_err (hide_not_found token_invalid)
          (s.refresh_tokens.find_by_hash (hash_refresh_token crypto plaintext))
    rotate existing

  unfoldable pub logout : String → Io Unit
  logout plaintext = do
    existing ←
        map_err (hide_not_found token_invalid)
          (s.refresh_tokens.find_by_hash (hash_refresh_token crypto plaintext))
    if revoked existing then return tt else s.refresh_tokens.revoke existing.id
