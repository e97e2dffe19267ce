-- ===== src/Store/Quiet.antt =====
-- An environment in which one client has the database to itself and nothing fails.
use taskflow_api.Base.{ℕ, suc, ◌≡◌, none}
use taskflow_api.Domain.Errors.{ok}
use taskflow_api.Store.{Tables, Env, works, World, Statement, exec, rows_affected}

pub record IsQuiet (env : Env) : Type 0 where
  pub working : (n : ℕ) → env.fault n ≡ works
  pub counting : (n : ℕ) → env.affected_fault n ≡ none
  pub scanning : (n i : ℕ) → env.scan_fault n i ≡ none
  pub iterating : (n : ℕ) → env.rows_fault n ≡ none
  pub alone : (n : ℕ) (t : Tables) → env.others n t ≡ t

module _ {A : Type 0} (env : Env) (q : IsQuiet env) where
  pub exec_quiet :
      (statement : Statement A) (w : World)
      → exec env statement w ≡ (
        (statement (env.db_now w.step) w.tables).0,
        record { tables = (statement (env.db_now w.step) w.tables).1; step = suc w.step },
      )
  unfolding exec
  exec_quiet statement w = rw (q.working w.step, q.alone w.step w.tables)

pub rows_affected_quiet :
    (env : Env) (q : IsQuiet env) (n : ℕ) (w : World)
    → rows_affected env n w ≡ (ok n, record w { step = suc w.step })
unfolding rows_affected
rows_affected_quiet env q n w = rw (q.counting w.step)
