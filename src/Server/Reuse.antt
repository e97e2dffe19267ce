-- ===== src/Server/Reuse.antt =====
-- What Refresh and Logout of auth_service.go answer to a token that is unknown, expired or used.
use taskflow_api.Base.{
  suc, String, ◌≡◌, ◌≢◌, ◌≤ℤ◌, Option-cases, refl, ◌⊎◌, inl, inr, true, false, not, ◌&&◌, Option,
  none, some, List, [], ◌∷◌, arith, Bool-cases, All, eq_ℤ, eq_ℤ_iff,
}
use taskflow_api.Domain.{RefreshToken, Instant, Int64, expired, revoked}
use taskflow_api.Domain.Errors.{token_invalid, sentinel, is_no_rows, err}
use taskflow_api.Sql.{select_rows, update_rows}
use taskflow_api.Store.{Tables, Env, works, World, ◌>>=◌, map_err, time_now, exec}
use taskflow_api.Store.Outcomes.{met, exec_works}
use taskflow_api.Repository.Users.{one_row}
use taskflow_api.Repository.RefreshTokens.{
  select_token, revoke_where, set_revoked, find_by_hash, revoke_all_for_user,
}
use taskflow_api.Repository.Evolution.{token_of}
use taskflow_api.Service.RefreshTokens.{hash_refresh_token}
use taskflow_api.Service.Auth
use taskflow_api.Service.Auth.{revoke_family, exchange, rotate}
use taskflow_api.Server.{Deployment, auth_service, refresh}

-- The row under a text's hash, among the tables that the lookup meets.
abbrev pub presented : Deployment → String → World → Option RefreshToken
presented d plaintext w =
    token_of (hash_refresh_token d.crypto plaintext) (met d.env w).refresh_tokens

-- The world after the lookup.
abbrev pub looked_up : Deployment → World → World
looked_up d w = record { tables = met d.env w; step = suc w.step }

find_by_hash_works :
    (env : Env) (hash : String) (w : World)
    → env.fault w.step ≡ works
    → exec env (select_token hash) w ≡ (
      one_row (token_of hash (met env w).refresh_tokens),
      record { tables = met env w; step = suc w.step },
    )
unfolding select_token
find_by_hash_works env hash w h = exec_works env (select_token hash) w h

refresh_unknown :
    (d : Deployment) (plaintext : String) (w : World)
    → d.env.fault w.step ≡ works
    → presented d plaintext w ≡ none
    → refresh d plaintext w ≡ (err (sentinel token_invalid), looked_up d w)
unfolding Auth.refresh find_by_hash map_err ◌>>=◌ is_no_rows
refresh_unknown d plaintext w h unknown = rw (find_by_hash_works d.env _ w h, unknown)

-- A refresh whose lookup works goes on with the row.
pub refresh_found :
    (d : Deployment) (plaintext : String) (w : World) (r : RefreshToken)
    → d.env.fault w.step ≡ works
    → presented d plaintext w ≡ some r
    → refresh d plaintext w ≡ rotate d.env d.crypto d.jwt (auth_service d) r (looked_up d w)
unfolding Auth.refresh find_by_hash map_err ◌>>=◌
refresh_found d plaintext w r h found = rw (find_by_hash_works d.env _ w h, found)

rotate-expired :
    (d : Deployment) (r : RefreshToken) (w : World)
    → revoked r ≡ false
    → expired r (d.env.app_now w.step) ≡ true
    → rotate d.env d.crypto d.jwt (auth_service d) r w
      ≡ (err (sentinel token_invalid), record w { step = suc w.step })
unfolding rotate exchange time_now ◌>>=◌
rotate-expired d r w live old = rw (live, old)

-- The statement that the detection of reuse sends.
revoke_all : Deployment → RefreshToken → World → Tables
revoke_all d r w =
    (revoke_where (λ x. eq_ℤ x.user_id r.user_id) (d.env.db_now w.step) (met d.env w)).1

rotate_used :
    (d : Deployment) (r : RefreshToken) (w : World)
    → d.env.fault w.step ≡ works
    → revoked r ≡ true
    → rotate d.env d.crypto d.jwt (auth_service d) r w
      ≡ (err (sentinel token_invalid), record { tables = revoke_all d r w; step = suc w.step })
unfolding rotate revoke_family revoke_all_for_user map_err ◌>>=◌ revoke_all revoke_where
rotate_used d r w h used =
    rw (used, exec_works d.env (revoke_where (λ x. eq_ℤ x.user_id r.user_id)) w h)

-- The token is unknown, or it was revoked, or the clock is past its expiry.
abbrev pub IsBadToken : Deployment → String → World → Type 0
IsBadToken d plaintext w =
    (presented d plaintext w ≡ none)
    ⊎ ((r : RefreshToken) × (presented d plaintext w ≡ some r)
        × ((r.revoked_at ≢ none) ⊎ ¬ (d.env.app_now (suc w.step) ≤ℤ r.expires_at)))

-- A row that is not revoked is in that case past its expiry.
overdue :
    (r : RefreshToken) (now : Instant)
    → (r.revoked_at ≢ none) ⊎ ¬ (now ≤ℤ r.expires_at)
    → revoked r ≡ false
    → expired r now ≡ true
unfolding revoked expired
overdue r now (inl used) live = elim (Option-cases r.revoked_at) [
  | inl e ↦ absurd (used e)
  | inr (t, e) ↦ absurd (true_not_false (rw e at live))
]
  where
    true_not_false : ¬ (true ≡ false)
    true_not_false e = cc e
overdue r now (inr late) live = ground arith

-- A refresh token that is unknown, revoked or expired is answered alike: if the statements work,
-- by ErrTokenInvalid.
pub refresh_rejects_alike :
    (d : Deployment) (plaintext : String) (w : World)
    → d.env.fault w.step ≡ works
    → d.env.fault (suc w.step) ≡ works
    → IsBadToken d plaintext w
    → (refresh d plaintext w).0 ≡ err (sentinel token_invalid)
refresh_rejects_alike d plaintext w h k (inl unknown) = rw (refresh_unknown d plaintext w h unknown)
refresh_rejects_alike d plaintext w h k (inr (r, found, bad)) = elim (Bool-cases (revoked r)) [
  | inl used ↦ rw (refresh_found d plaintext w r h found, rotate_used d r (looked_up d w) k used)
  | inr live ↦ rw (
    refresh_found d plaintext w r h found,
    rotate-expired d r (looked_up d w) live (overdue r _ bad live),
  )
]

-- Every token of the user is revoked, and the tokens of the others are as they were.
pub record FamilyRevoked (user_id : Int64) (before after : List RefreshToken) : Type 0 where
  pub dead : All (λ r. r.user_id ≡ user_id → revoked r ≡ true) after
  pub others :
      select_rows (λ r. not (eq_ℤ r.user_id user_id)) after
      ≡ select_rows (λ r. not (eq_ℤ r.user_id user_id)) before

-- An update over part of a user's tokens leaves the tokens of the others.
family_revoked :
    (user_id : Int64) (now : Instant) (rs : List RefreshToken)
    → FamilyRevoked user_id rs
        (update_rows (λ r. eq_ℤ r.user_id user_id && not (revoked r)) (set_revoked now) rs)
unfolding update_rows select_rows
family_revoked user_id now [] = record { dead = tt; others = refl }
family_revoked user_id now (r ∷ rs) =
    let rest = family_revoked user_id now rs in
    record {
      dead = (λ same. unfold revoked in ground (arith, eq_ℤ_iff r.user_id user_id), rest.dead);
      others = ground (arith, rest.others);
    }

-- Reuse is taken for theft. If the token that is shown was revoked before, and the statements work,
-- then Refresh answers ErrTokenInvalid, and it leaves every refresh token of that user revoked and
-- every other user's tokens as its UPDATE met them.
pub refresh_reuse_revokes_family :
    (d : Deployment) (plaintext : String) (w : World) (r : RefreshToken)
    → d.env.fault w.step ≡ works
    → d.env.fault (suc w.step) ≡ works
    → presented d plaintext w ≡ some r
    → revoked r ≡ true
    → ((refresh d plaintext w).0 ≡ err (sentinel token_invalid))
      × FamilyRevoked r.user_id
          (met d.env (looked_up d w)).refresh_tokens
          (refresh d plaintext w).1.tables.refresh_tokens
unfolding revoke_all revoke_where
refresh_reuse_revokes_family d plaintext w r h k found used =
    rw (refresh_found d plaintext w r h found, rotate_used d r (looked_up d w) k used)
      (refl, family_revoked r.user_id (d.env.db_now (suc w.step)) _)
