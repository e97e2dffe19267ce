-- ===== src/Repository/TokenOutcomes.antt =====
-- What the methods of refresh_token_repository.go tell when they succeed.
use taskflow_api.Base.{
  ℕ, suc, String, ◌≡◌, refl, sym, ap, ◌∙◌, ◌≢◌, not, ◌&&◌, Option, none, some, arith, eq_ℤ,
}
use taskflow_api.Domain.{RefreshToken, Int64, done, revoked}
use taskflow_api.Domain.Errors.{Result, ok, err}
use taskflow_api.Sql.{count_rows}
use taskflow_api.Store.{Env, World, exec, rows_affected}
use taskflow_api.Store.Outcomes.{met, bind-ok, map_err-ok, map_err-world, exec-ok}
use taskflow_api.Repository.Users.{one_row}
use taskflow_api.Repository.RefreshTokens.{
  select_token, revoke_where, none_affected, find_by_hash, revoke,
}
use taskflow_api.Repository.Evolution.{token_of}

one_row-ok : {A : Type 0} (o : Option A) (a : A) → one_row o ≡ ok a → o ≡ some a
one_row-ok none a h = cc
one_row-ok (some b) a h = cc

-- A token that `FindByHash` returns is the row under that hash, and the tables are as it met them.
pub find_by_hash-ok :
    (env : Env) (hash : String) (w : World) (r : RefreshToken)
    → (find_by_hash env hash w).0 ≡ ok r
    → (token_of hash (met env w).refresh_tokens ≡ some r)
      × ((find_by_hash env hash w).1 ≡ record { tables = met env w; step = suc w.step })
unfolding find_by_hash select_token
find_by_hash-ok env hash w r h =
    let (row, world) =
      exec-ok env (select_token hash) w r (map_err-ok _ (exec env (select_token hash)) w r h) in
    (one_row-ok _ r row, map_err-world _ (exec env (select_token hash)) w ∙ world)

none_affected-world : (p : Result ℕ × World) → (none_affected p).1 ≡ p.1
none_affected-world (ok n, w) = refl
none_affected-world (err e, w) = refl

-- A `Revoke` that succeeds has sent its UPDATE, and the tables are as that leaves them.
pub revoke-ok :
    (env : Env) (id : Int64) (w : World)
    → (revoke env id w).0 ≡ ok tt
    → (revoke env id w).1.tables
      ≡ (revoke_where (λ r. eq_ℤ r.id id) (env.db_now w.step) (met env w)).1
unfolding revoke rows_affected
revoke-ok env id w h =
    let (n, done, same) = bind-ok _ _ w tt h in
    let (counted, world) =
      exec-ok env (revoke_where (λ r. eq_ℤ r.id id)) w n (map_err-ok _ _ w n done) in
    ap (λ p. p.1.tables) same
    ∙ ap (λ v. v.tables) (none_affected-world (rows_affected env n _))
    ∙ ap (λ v. v.tables) (map_err-world _ (exec env (revoke_where (λ r. eq_ℤ r.id id))) w)
    ∙ ap (λ v. v.tables) world

zero_affected :
    (env : Env) (n : ℕ) (w : World)
    → env.affected_fault w.step ≡ none
    → n ≡ 0
    → (none_affected (rows_affected env n w)).0 ≢ ok tt
unfolding rows_affected
zero_affected env n w counting e h = ground arith

-- With the number of rows known, it has revoked a row that was not revoked.
pub revoke-ok_live :
    (env : Env) (id : Int64) (w : World)
    → ((n : ℕ) → env.affected_fault n ≡ none)
    → (revoke env id w).0 ≡ ok tt
    → count_rows (λ r. eq_ℤ r.id id && not (revoked r)) (met env w).refresh_tokens ≢ 0
unfolding revoke rows_affected revoke_where
revoke-ok_live env id w counting h zero_rows =
    let (n, done, same) = bind-ok _ _ w tt h in
    let (counted, world) =
      exec-ok env (revoke_where (λ r. eq_ℤ r.id id)) w n (map_err-ok _ _ w n done) in
    let zero : n ≡ 0 = cc (counted, zero_rows) in
    zero_affected env n _ (counting _) zero (sym (ap (λ p. p.0) same) ∙ h)
