-- ===== src/Server/Rotation.antt =====
-- The rotation of a live refresh token by Refresh of auth_service.go, when nothing comes between.
use taskflow_api.Base.{
  ℕ, zero, suc, String, ◌≡◌, ◌≢◌, refl, ◌∙◌, not, ◌&&◌, false, none, some, List, [], ◌∷◌, ◌++◌,
  arith, str_eq, str_eq_refl, pos, ◌+ℤ◌, eq_ℤ, eq_ℤ_refl, ◌==◌,
}
use taskflow_api.Domain.{RefreshToken, Int64, Instant, expired, revoked}
use taskflow_api.Domain.Errors.{ok}
use taskflow_api.Sql.{exists_row, find_row, count_rows, update_rows}
use taskflow_api.Sql.Rows.{
  exists_row-update_rows, find_row-exists_row, find_row-append, find_row-All,
}
use taskflow_api.Store.{World, ◌>>=◌, map_err, time_now, rand_read, rows_affected}
use taskflow_api.Store.Quiet.{IsQuiet, exec_quiet}
use taskflow_api.Repository.Consistency.{HasUser, IsConsistent}
use taskflow_api.Repository.Evolution.{token_of, token_of-revoked, find_row-grown}
use taskflow_api.Repository.RefreshTokens as Rows
use taskflow_api.Repository.RefreshTokens.{insert_token, revoke_where, set_revoked}
use taskflow_api.Service.RefreshTokens.{hash_refresh_token, generate_refresh_token, base64url}
use taskflow_api.Service.Tokens.{RegisteredClaims, generate}
use taskflow_api.Strconv.{format_int}
use taskflow_api.Service.Auth.{issue_token_pair, rotate, exchange, spend}
use taskflow_api.Server.{Deployment, auth_service, refresh}
use taskflow_api.Server.Reuse.{presented, refresh_found}

-- The claims of the access token that is issued in a world.
abbrev pub claims_at : Deployment → Int64 → World → RegisteredClaims
claims_at d user_id w = record {
  subject = format_int user_id;
  issued_at = d.jwt.numeric_date (d.env.app_now w.step);
  expires_at = d.jwt.numeric_date (d.env.app_now (suc w.step) +ℤ d.jwt_expires_in);
}

-- The row of a session that is issued in a world.
abbrev pub new_session : Deployment → Int64 → String → World → RefreshToken
new_session d user_id hash w = record {
  id = pos w.tables.next_token;
  user_id = user_id;
  token_hash = hash;
  expires_at = d.env.stored (d.env.app_now (suc (suc (suc w.step))) +ℤ d.refresh_token_ttl);
  revoked_at = none;
  created_at = d.env.db_now (suc (suc (suc (suc w.step))));
}

some_affected : (n : ℕ) (w : World) → Rows.none_affected (ok (suc n), w) ≡ (ok tt, w)
some_affected n w = let positive : (suc n == 0) ≡ false = ground arith in rw positive

-- The world after a `Revoke` that works, two effects later.
abbrev pub after_revoke : Deployment → Int64 → World → World
after_revoke d id w = record {
  tables = (revoke_where (λ x. eq_ℤ x.id id) (d.env.db_now w.step) w.tables).1;
  step = suc (suc w.step);
}

-- The world in which a refresh that spent the row issues the new pair.
abbrev pub after_spending : Deployment → RefreshToken → World → World
after_spending d r w = after_revoke d r.id (record w { step = suc (suc w.step) })

-- A live row that a hash finds is among those that a revocation of its id counts.
live_counted :
    (hash : String) (rs : List RefreshToken) (r : RefreshToken)
    → token_of hash rs ≡ some r
    → revoked r ≡ false
    → count_rows (λ x. eq_ℤ x.id r.id && not (revoked x)) rs ≢ 0
unfolding count_rows find_row
live_counted hash [] r found live = cc
live_counted hash (x ∷ rs) r found live = ground (arith, eq_ℤ_refl r.id, live_counted hash rs r)

module _ (d : Deployment) (q : IsQuiet d.env) where
  -- An issue of a pair, where the libraries work and the new token's hash is free.
  issue_quiet :
      (user_id : Int64) (w : World) (access : String) (buf : List ℕ)
      → d.jwt.signed_string d.jwt_secret (claims_at d user_id w) ≡ ok access
      → d.env.random (suc (suc w.step)) 32 ≡ ok buf
      → HasUser w.tables.users user_id
      → exists_row
          (λ r. str_eq r.token_hash (hash_refresh_token d.crypto (base64url buf)))
          w.tables.refresh_tokens
        ≡ false
      → issue_token_pair d.env d.crypto d.jwt (auth_service d) user_id w ≡ (
        ok (access, base64url buf),
        record {
          tables = record w.tables {
            refresh_tokens =
                w.tables.refresh_tokens
                ++ new_session d user_id (hash_refresh_token d.crypto (base64url buf)) w ∷ [];
            next_token = suc w.tables.next_token;
          };
          step = suc (suc (suc (suc (suc w.step))));
        },
      )
  unfolding issue_token_pair generate generate_refresh_token time_now rand_read map_err ◌>>=◌
      Rows.create insert_token
  issue_quiet user_id w access buf signed drawn known free =
      rw (signed, drawn, exec_quiet d.env q, free, known)

  -- A revocation that selects a row succeeds.
  revoke_quiet :
      (id : Int64) (w : World) (n : ℕ)
      → count_rows (λ x. eq_ℤ x.id id && not (revoked x)) w.tables.refresh_tokens ≡ suc n
      → Rows.revoke d.env id w ≡ (ok tt, after_revoke d id w)
  unfolding Rows.revoke map_err ◌>>=◌ revoke_where rows_affected
  revoke_quiet id w n some_row = rw (exec_quiet d.env q, some_row, q.counting, some_affected)

  -- A rotation of a row that is live, through both of its statements.
  rotate_quiet :
      (r : RefreshToken) (w : World) (n : ℕ)
      → revoked r ≡ false
      → expired r (d.env.app_now w.step) ≡ false
      → count_rows (λ x. eq_ℤ x.id r.id && not (revoked x)) w.tables.refresh_tokens ≡ suc n
      → rotate d.env d.crypto d.jwt (auth_service d) r w
        ≡ issue_token_pair d.env d.crypto d.jwt
            (auth_service d)
            r.user_id
            (after_revoke d r.id (record w { step = suc w.step }))
  unfolding rotate exchange spend time_now map_err ◌>>=◌
  rotate_quiet r w n live young some_row =
      rw (live, young, revoke_quiet r.id (record w { step = suc w.step }) n some_row)

  refresh_quiet :
      (plaintext : String) (w : World) (r : RefreshToken)
      → presented d plaintext w ≡ some r
      → revoked r ≡ false
      → expired r (d.env.app_now (suc w.step)) ≡ false
      → refresh d plaintext w
        ≡ issue_token_pair d.env d.crypto d.jwt (auth_service d) r.user_id (after_spending d r w)
  refresh_quiet plaintext w r found live young =
      let here = rw (q.alone w.step w.tables) at found in
      let counted = live_counted _ w.tables.refresh_tokens r here live in
      let (n, some_row) = nonzero _ counted in
      rw (
        refresh_found d plaintext w r (q.working w.step) found,
        q.alone w.step w.tables,
        rotate_quiet r (record w { step = suc w.step }) n live young some_row,
      )
    where
      nonzero : (n : ℕ) → n ≢ 0 → (m : ℕ) × (n ≡ suc m)
      nonzero zero h = absurd (h refl)
      nonzero (suc m) h = (m, refl)

-- What a revocation and the insertion of a new session leave in the table.
module _ (now : Instant) (r : RefreshToken) (rs : List RefreshToken) where
  abbrev revoked_rows : List RefreshToken
  revoked_rows = update_rows (λ x. eq_ℤ x.id r.id && not (revoked x)) (set_revoked now) rs

  still_free :
      (hash : String)
      → token_of hash rs ≡ none
      → exists_row (λ x. str_eq x.token_hash hash) revoked_rows ≡ false
  still_free hash free =
      rw
        (exists_row-update_rows (λ x. eq_ℤ x.id r.id && not (revoked x))
          (λ x. str_eq x.token_hash hash) (set_revoked now) rs (λ x. refl))
        (find_row-exists_row _ rs free)

  old_row :
      (hash : String) (s : RefreshToken)
      → token_of hash rs ≡ some r
      → revoked r ≡ false
      → token_of hash (revoked_rows ++ s ∷ []) ≡ some (set_revoked now r)
  old_row hash s found live =
      find_row-grown _ revoked_rows s _
        (token_of-revoked (λ x. eq_ℤ x.id r.id) now hash rs r found ∙ rw (eq_ℤ_refl r.id, live))

  new_row :
      (s : RefreshToken)
      → token_of s.token_hash rs ≡ none
      → token_of s.token_hash (revoked_rows ++ s ∷ []) ≡ some s
  new_row s free = rw (find_row-append, still_free s.token_hash free, str_eq_refl)

-- A live refresh token is exchanged once for a new pair. With the database to itself, consistent
-- tables, a token that is found, not revoked and not expired, a JWT library that signs, random
-- bytes that are drawn, and no row yet under the hash of the new token, Refresh answers the signed
-- access token and the base64url text of the bytes; the token that was shown is then revoked, and
-- the table holds the new session of the same user under the new token's hash.
pub refresh_rotates :
    (d : Deployment) (plaintext : String) (w : World) (r : RefreshToken) (access : String)
    (buf : List ℕ)
    → (q : IsQuiet d.env) → IsConsistent w.tables
    → presented d plaintext w ≡ some r
    → revoked r ≡ false
    → expired r (d.env.app_now (suc w.step)) ≡ false
    → d.jwt.signed_string d.jwt_secret (claims_at d r.user_id (after_spending d r w)) ≡ ok access
    → d.env.random (suc (suc (after_spending d r w).step)) 32 ≡ ok buf
    → token_of (hash_refresh_token d.crypto (base64url buf)) w.tables.refresh_tokens ≡ none
    → ((refresh d plaintext w).0 ≡ ok (access, base64url buf))
      × ((t : Instant) × (token_of
              (hash_refresh_token d.crypto plaintext)
              (refresh d plaintext w).1.tables.refresh_tokens
            ≡ some (set_revoked t r)))
      × (token_of
            (hash_refresh_token d.crypto (base64url buf))
            (refresh d plaintext w).1.tables.refresh_tokens
          ≡ some (
              new_session d r.user_id
                (hash_refresh_token d.crypto (base64url buf))
                (after_spending d r w)))
unfolding revoke_where
refresh_rotates d plaintext w r access buf q c found live young signed drawn free =
    let now = d.env.db_now (suc (suc w.step)) in
    let here = rw (q.alone w.step w.tables) at found in
    rw
      (
        refresh_quiet d q plaintext w r found live young,
        issue_quiet d q r.user_id (after_spending d r w) access buf signed drawn
            (find_row-All _ (λ x. HasUser w.tables.users x.user_id) w.tables.refresh_tokens
              c.token_owners here)
            (still_free now r w.tables.refresh_tokens _ free),
      )
      (
        refl,
        (now, old_row now r w.tables.refresh_tokens _ _ here live),
        new_row now r w.tables.refresh_tokens _ free,
      )
