-- ===== src/Server/Race.antt =====
-- Refresh of auth_service.go when another request spends the token between its two statements.
use taskflow_api.Base.{
  suc, String, ◌≡◌, refl, not, ◌&&◌, true, false, none, some, List, [], ◌∷◌, arith, eq_ℤ, All,
  eq_ℤ_iff,
}
use taskflow_api.Domain.{RefreshToken, Int64, expired, revoked}
use taskflow_api.Domain.Errors.{wrapf, err, sentinel, not_found}
use taskflow_api.Sql.{exists_row, count_rows}
use taskflow_api.Sql.Rows.{update_rows-none}
use taskflow_api.Store.{Tables, World, works, ◌>>=◌, map_err, time_now, rows_affected}
use taskflow_api.Store.Outcomes.{met, exec_works}
use taskflow_api.Repository.RefreshTokens as Rows
use taskflow_api.Repository.RefreshTokens.{insert_token, revoke_where, set_revoked}
use taskflow_api.Service.Auth.{rotate, exchange, spend}
use taskflow_api.Server.{Deployment, refresh}
use taskflow_api.Server.Reuse.{presented, refresh_found}

-- The tables that the statement of a refresh's revocation meets.
abbrev pub met_by_revoke : Deployment → World → Tables
met_by_revoke d w = met d.env (record { tables = met d.env w; step = suc (suc w.step) })

none_counted :
    (id : Int64) (rs : List RefreshToken)
    → All (λ x. x.id ≡ id → revoked x ≡ true) rs
    → (count_rows (λ x. eq_ℤ x.id id && not (revoked x)) rs ≡ 0)
      × (exists_row (λ x. eq_ℤ x.id id && not (revoked x)) rs ≡ false)
unfolding count_rows exists_row
none_counted id [] a = (refl, refl)
none_counted id (x ∷ rs) (dead, a) =
    let (n, e) = none_counted id rs a in
    (ground (arith, dead, eq_ℤ_iff x.id id, n), ground (arith, dead, eq_ℤ_iff x.id id, e))

revoke_late :
    (d : Deployment) (id : Int64) (w : World)
    → d.env.fault w.step ≡ works
    → d.env.affected_fault (suc w.step) ≡ none
    → All (λ x. x.id ≡ id → revoked x ≡ true) (met d.env w).refresh_tokens
    → Rows.revoke d.env id w
      ≡ (err (sentinel not_found), record { tables = met d.env w; step = suc (suc w.step) })
unfolding Rows.revoke map_err ◌>>=◌ revoke_where rows_affected
revoke_late d id w h k dead =
    let (n, e) = none_counted id (met d.env w).refresh_tokens dead in
    rw (exec_works d.env _ w h, k, n, update_rows-none _ (set_revoked (d.env.db_now w.step)) _ e)

-- Of two refreshes with one live token, the later one fails, and not as with a bad token. If the
-- statements work, the lookup finds the token live, and when the UPDATE of its revocation runs every
-- row with its id is revoked, then Refresh answers ErrNotFound, wrapped, and not
-- ErrTokenInvalid, and changes no table: the user's other tokens are not revoked.
pub refresh_race_loser :
    (d : Deployment) (plaintext : String) (w : World) (r : RefreshToken)
    → d.env.fault w.step ≡ works
    → d.env.fault (suc (suc w.step)) ≡ works
    → d.env.affected_fault (suc (suc (suc w.step))) ≡ none
    → presented d plaintext w ≡ some r
    → revoked r ≡ false
    → expired r (d.env.app_now (suc w.step)) ≡ false
    → All (λ x. x.id ≡ r.id → revoked x ≡ true) (met_by_revoke d w).refresh_tokens
    → ((refresh d plaintext w).0
        ≡ err (wrapf "revoke used refresh token: " (sentinel not_found) ""))
      × ((refresh d plaintext w).1.tables ≡ met_by_revoke d w)
unfolding rotate exchange spend time_now map_err ◌>>=◌
refresh_race_loser d plaintext w r h k counted found live young dead =
    let late =
      revoke_late d r.id (record { tables = met d.env w; step = suc (suc w.step) }) k counted
        dead in
    rw (refresh_found d plaintext w r h found, live, young, late) (refl, refl)
