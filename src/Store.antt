-- ===== src/Store.antt =====
-- The database as the repositories see it, and the effects of the program: the tables of
-- internal/database/migrations, and actions that read and write them and may fail.
pub mod Quiet
pub mod Respects
pub mod Outcomes
use taskflow_api.Base.{ℕ, suc, ◌-◌, String, not, Option, none, some, List}
use taskflow_api.Domain.{Task, User, RefreshToken, Instant}
use taskflow_api.Domain.Errors.{Error, wrapf, other, Result, ok, err}

-- The rows in the order of their insertion, and the sequences behind the BIGSERIAL columns.
pub record Tables : Type 0 where
  pub users : List User
  pub tasks : List Task
  pub refresh_tokens : List RefreshToken
  pub next_user : ℕ
  pub next_task : ℕ
  pub next_token : ℕ

-- What happens to one statement on its way: it works; the driver refuses it before it has an
-- effect; or the connection is lost after it took effect, so its outcome is not known.
pub data Fault : Type 0 where
  works : Fault
  refused : String → Fault
  lost : String → Fault

-- The environment, a function of the number of effects performed so far. Postgres and the driver
-- are not part of the program: their faults, clock, row order and messages are parameters, and so
-- are the other clients of the database, which may change it between two statements.
pub record Env : Type 0 where
  -- The fate of the statement.
  pub fault : ℕ → Fault
  -- The error of `RowsAffected`, if it fails.
  pub affected_fault : ℕ → Option String
  -- The error of scanning the i-th row of the result, and the one that ends the iteration.
  pub scan_fault : ℕ → ℕ → Option String
  pub rows_fault : ℕ → Option String
  -- What the other clients did to the tables since the last statement.
  pub others : ℕ → Tables → Tables
  -- `now()` in a statement, and `time.Now()` in the program.
  pub db_now : ℕ → Instant
  pub app_now : ℕ → Instant
  -- What a TIMESTAMPTZ column keeps of an instant.
  pub stored : Instant → Instant
  -- The rows in the order that ORDER BY created_at DESC gave them.
  pub order : ℕ → List Task → List Task
  -- The server's text for a SQLSTATE.
  pub message : String → String
  -- `rand.Read` of so many bytes.
  pub random : ℕ → ℕ → Result (List ℕ)

pub record World : Type 0 where
  pub tables : Tables
  pub step : ℕ

-- A call with a `context.Context`, which returns a value or an error and changes the world.
abbrev pub Io : Type 0 → Type 0
Io A = World → Result A × World

module _ {A B : Type 0} where
  abbrev continue : Result A × World → (A → Io B) → Result B × World
  continue (ok a, w) f = f a w
  continue (err e, w) f = (err e, w)

  infixl 5 ◌>>=◌ ◌>>◌
  unfoldable pub ◌>>=◌ : Io A → (A → Io B) → Io B
  ◌>>=◌ m f w = continue (m w) f

  abbrev pub ◌>>◌ : Io A → Io B → Io B
  m >> n = m >>= λ _. n

abbrev pub return : {A : Type 0} → A → Io A
return a w = (ok a, w)

abbrev pub raise : {A : Type 0} → Error → Io A
raise e w = (err e, w)

-- `if err != nil { return …, f(err) }`
abbrev map_err_result : {A : Type 0} → (Error → Error) → Result A → Result A
map_err_result f (ok a) = ok a
map_err_result f (err e) = err (f e)

unfoldable pub map_err : {A : Type 0} → (Error → Error) → Io A → Io A
map_err f m w = let (r, w') = m w in (map_err_result f r, w')

-- `fmt.Errorf("text: %w", err)`
abbrev pub wrap : String → Error → Error
wrap text e = wrapf text e ""

-- `time.Now()`
unfoldable pub time_now : Env → Io Instant
time_now env w = (ok (env.app_now w.step), record w { step = suc w.step })

-- A statement: `now()` and the tables before, the outcome and the tables after.
abbrev pub Statement : Type 0 → Type 0
Statement A = Instant → Tables → Result A × Tables

abbrev pub settle : {A : Type 0} → Fault → Result A × Tables → Tables → ℕ → Result A × World
settle works (r, after) before n = (r, record { tables = after; step = n })
settle (refused text) (r, after) before n = (err (other text), record { tables = before; step = n })
settle (lost text) (r, after) before n = (err (other text), record { tables = after; step = n })

-- `db.QueryRowContext`, `db.QueryContext`, `db.ExecContext`
unfoldable pub exec : {A : Type 0} → Env → Statement A → Io A
exec env statement w =
    let before = env.others w.step w.tables in
    settle (env.fault w.step) (statement (env.db_now w.step) before) before (suc w.step)

abbrev rows_or : {A : Type 0} → Option String → A → Result A
rows_or none n = ok n
rows_or (some text) n = err (other text)

-- `res.RowsAffected()`
unfoldable pub rows_affected : Env → ℕ → Io ℕ
rows_affected env n w = (rows_or (env.affected_fault w.step) n, record w { step = suc w.step })

-- `rand.Read(buf)`
unfoldable pub rand_read : Env → ℕ → Io (List ℕ)
rand_read env count w = (env.random w.step count, record w { step = suc w.step })
