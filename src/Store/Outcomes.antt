-- ===== src/Store/Outcomes.antt =====
-- What a successful action tells: its parts succeeded, and its statements took effect.
use taskflow_api.Base.{ℕ, suc, ◌≡◌, refl, Bool, true, false, if◌then◌else◌}
use taskflow_api.Domain.Errors.{Error, Result, ok, err}
use taskflow_api.Store.{
  Tables, Env, Fault, works, refused, lost, World, Io, ◌>>=◌, return, raise, map_err, Statement,
  exec,
}
use taskflow_api.Store.{continue, settle, map_err_result}

-- The tables that a statement sent in this world meets.
abbrev pub met : Env → World → Tables
met env w = env.others w.step w.tables

module _ {A B : Type 0} where
  continue-ok :
      (r : Result A) (w : World) (f : A → Io B) (b : B)
      → (continue (r, w) f).0 ≡ ok b
      → (a : A) × (r ≡ ok a) × (continue (r, w) f ≡ f a w)
  continue-ok (ok a) w f b h = (a, refl, refl)
  continue-ok (err e) w f b h = cc

  pub bind-ok :
      (m : Io A) (f : A → Io B) (w : World) (b : B)
      → ((m >>= f) w).0 ≡ ok b
      → (a : A) × ((m w).0 ≡ ok a) × ((m >>= f) w ≡ f a (m w).1)
  unfolding ◌>>=◌
  bind-ok m f w b h = continue-ok (m w).0 (m w).1 f b h

  -- The two ways in which an action goes on.
  pub bind-eq_of_ok :
      (m : Io A) (f : A → Io B) (w : World) (a : A) → (m w).0 ≡ ok a → (m >>= f) w ≡ f a (m w).1
  unfolding ◌>>=◌
  bind-eq_of_ok m f w a h = rw (h, continue)

  pub bind-eq_of_err :
      (m : Io A) (f : A → Io B) (w : World) (e : Error)
      → (m w).0 ≡ err e
      → (m >>= f) w ≡ (err e, (m w).1)
  unfolding ◌>>=◌
  bind-eq_of_err m f w e h = rw (h, continue)

module _ {A : Type 0} where
  map_err_result-ok :
      (f : Error → Error) (r : Result A) (a : A) → map_err_result f r ≡ ok a → r ≡ ok a
  map_err_result-ok f (ok b) a h = h
  map_err_result-ok f (err e) a h = cc

  pub map_err-ok :
      (f : Error → Error) (m : Io A) (w : World) (a : A) → (map_err f m w).0 ≡ ok a → (m w).0 ≡ ok a
  unfolding map_err
  map_err-ok f m w a h = map_err_result-ok f (m w).0 a h

  pub map_err-eq_of_ok :
      (f : Error → Error) (m : Io A) (w : World) (a : A) → (m w).0 ≡ ok a → (map_err f m w).0 ≡ ok a
  unfolding map_err
  map_err-eq_of_ok f m w a h = rw (h, map_err_result)

  pub map_err-world : (f : Error → Error) (m : Io A) (w : World) → (map_err f m w).1 ≡ (m w).1
  unfolding map_err
  map_err-world f m w = refl

  -- A statement that succeeded has worked on the tables that it met.
  settle-ok :
      (f : Fault) (r : Result A) (before after : Tables) (n : ℕ) (a : A)
      → (settle f (r, after) before n).0 ≡ ok a
      → (r ≡ ok a) × ((settle f (r, after) before n).1 ≡ record { tables = after; step = n })
  settle-ok works r before after n a h = (h, refl)
  settle-ok (refused text) r before after n a h = cc
  settle-ok (lost text) r before after n a h = cc

  pub exec-ok :
      (env : Env) (st : Statement A) (w : World) (a : A)
      → (exec env st w).0 ≡ ok a
      → ((st (env.db_now w.step) (met env w)).0 ≡ ok a)
        × ((exec env st w).1
            ≡ record { tables = (st (env.db_now w.step) (met env w)).1; step = suc w.step })
  unfolding exec
  exec-ok env st w a h =
      settle-ok (env.fault w.step) (st (env.db_now w.step) (met env w)).0 (met env w)
        (st (env.db_now w.step) (met env w)).1 (suc w.step) a h

  -- A statement that works does what it says.
  pub exec_works :
      (env : Env) (st : Statement A) (w : World)
      → env.fault w.step ≡ works
      → exec env st w ≡ (
        (st (env.db_now w.step) (met env w)).0,
        record { tables = (st (env.db_now w.step) (met env w)).1; step = suc w.step },
      )
  unfolding exec
  exec_works env st w h = rw (h, settle)

-- An action behind a guard that succeeds has passed the guard.
pub guard-ok :
    {A : Type 0} (b : Bool) (e : Error) (m : Io A) (w : World) (a : A)
    → ((if b then raise e else m) w).0 ≡ ok a
    → (b ≡ false) × ((if b then raise e else m) w ≡ m w)
guard-ok true e m w a h = cc
guard-ok false e m w a h = (refl, refl)

-- A check that lets its value through.
pub check-ok :
    {A : Type 0} (b : Bool) (e : Error) (x a : A) (w : World)
    → ((if b then return x else raise e) w).0 ≡ ok a
    → (b ≡ true) × (x ≡ a)
check-ok true e x a w h = (refl, cc)
check-ok false e x a w h = cc
