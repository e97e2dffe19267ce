-- ===== src/Repository/RefreshTokens.antt =====
-- internal/repository/refresh_token_repository.go, with the table refresh_tokens of
-- migrations/0002_refresh_tokens.sql.
use taskflow_api.Base.{
  ℕ, suc, String, Bool, not, ◌&&◌, none, some, [], ◌∷◌, ◌++◌, str_eq, ◌==◌, if◌then◌else◌, pos,
  eq_ℤ,
}
use taskflow_api.Domain.{RefreshToken, Instant, Int64, revoked}
use taskflow_api.Domain.Errors.{not_found, sentinel, pg_error, Result, ok, err}
use taskflow_api.Sql.{find_row, count_rows, update_rows, exists_row}
use taskflow_api.Store.{
  Env, World, Io, ◌>>=◌, ◌>>◌, return, map_err, wrap, Statement, exec, rows_affected,
}
use taskflow_api.Repository.Interfaces.{RefreshTokenRepository}
use taskflow_api.Repository.Users.{one_row, find_error}

-- INSERT INTO refresh_tokens (user_id, token_hash, expires_at) … RETURNING id, created_at. The
-- column token_hash is UNIQUE, and user_id REFERENCES users(id).
unfoldable pub insert_token : Env → RefreshToken → Statement (Int64 × Instant)
insert_token env k now t =
    let t' = record t { next_token = suc t.next_token } in
    let row : RefreshToken = record {
      id = pos t.next_token;
      user_id = k.user_id;
      token_hash = k.token_hash;
      expires_at = env.stored k.expires_at;
      revoked_at = none;
      created_at = now;
    } in
    if exists_row (λ r. str_eq r.token_hash k.token_hash) t.refresh_tokens
    then (err (pg_error "23505" (env.message "23505")), t')
    else if exists_row (λ u. eq_ℤ u.id k.user_id) t.users
    then (ok (pos t.next_token, now), record t' { refresh_tokens = t.refresh_tokens ++ row ∷ [] })
    else (err (pg_error "23503" (env.message "23503")), t')

unfoldable pub select_token : String → Statement RefreshToken
select_token hash now t = (one_row (find_row (λ r. str_eq r.token_hash hash) t.refresh_tokens), t)

abbrev pub set_revoked : Instant → RefreshToken → RefreshToken
set_revoked now r = record r { revoked_at = some now }

-- UPDATE refresh_tokens SET revoked_at = now() WHERE … AND revoked_at IS NULL, which tells how many
-- rows it changed.
unfoldable pub revoke_where : (RefreshToken → Bool) → Statement ℕ
revoke_where where_ now t = (
  ok (count_rows (λ r. where_ r && not (revoked r)) t.refresh_tokens),
  record t {
    refresh_tokens =
        update_rows (λ r. where_ r && not (revoked r)) (set_revoked now) t.refresh_tokens;
  },
)

-- `affected, err := res.RowsAffected(); err == nil && affected == 0`: its error is ignored.
abbrev pub none_affected : Result ℕ × World → Result (Unit {0}) × World
none_affected (ok n, w) = (if n == 0 then err (sentinel not_found) else ok tt, w)
none_affected (err e, w) = (ok tt, w)

module _ (env : Env) where
  unfoldable pub create : RefreshToken → Io RefreshToken
  create k = do
    scanned ← map_err (wrap "insert refresh token: ") (exec env (insert_token env k))
    return (record k { id = scanned.0; created_at = scanned.1 })

  unfoldable pub find_by_hash : String → Io RefreshToken
  find_by_hash hash =
      map_err (find_error "find refresh token by hash: ") (exec env (select_token hash))

  unfoldable pub revoke : Int64 → Io Unit
  revoke id = do
    res ← map_err (wrap "revoke refresh token: ") (exec env (revoke_where (λ r. eq_ℤ r.id id)))
    λ w. none_affected (rows_affected env res w)

  unfoldable pub revoke_all_for_user : Int64 → Io Unit
  revoke_all_for_user user_id = do
    map_err (wrap "revoke all refresh tokens for user: ")
        (exec env (revoke_where (λ r. eq_ℤ r.user_id user_id)))
    return tt

  -- `NewRefreshTokenRepository`
  abbrev pub refresh_token_repository : RefreshTokenRepository
  refresh_token_repository = record {
    create = create;
    find_by_hash = find_by_hash;
    revoke = revoke;
    revoke_all_for_user = revoke_all_for_user;
  }
