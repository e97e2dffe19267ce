-- ===== src/Database.antt =====
-- internal/database/database.go: the connection, retried while the database starts up.
pub mod Retries
pub mod Migrations
use taskflow_api.Base.{ℕ, zero, suc, Option, none, some}
use taskflow_api.Domain.Errors.{Error, wrapf, other, Result, ok, err}

abbrev pub max_attempts : ℕ
max_attempts = 10

-- What the driver and the context answer: the errors of registering and opening it, the error of
-- the n-th ping, and that of a context which is done before the delay after it is over.
pub record Driver : Type 0 where
  pub register : Option Error
  pub open_ : Option Error
  pub ping : ℕ → Option Error
  pub done : ℕ → Option Error

abbrev gave_up : Option Error → Result (Unit {0})
gave_up none = err (other "could not connect to database after 10 attempts: %!w(<nil>)")
gave_up (some e) = err (wrapf "could not connect to database after 10 attempts: " e "")

-- One turn of the loop, by the answers of its ping and of its wait, and the turns after it.
abbrev turn : Option Error → Option Error → Result (Unit {0}) → Result (Unit {0})
turn none cancelled rest = ok tt
turn (some e) (some c) rest = err c
turn (some e) none rest = rest

-- The loop with so many attempts left, from this attempt on, after this error of the last ping.
unfoldable pub attempts : Driver → ℕ → ℕ → Option Error → Result (Unit {0})
attempts d zero attempt last = gave_up last
attempts d (suc left) attempt last =
    let rest = attempts d left (suc attempt) (d.ping attempt) in
    turn (d.ping attempt) (d.done attempt) rest

abbrev pub opened : Driver → Option Error → Option Error → Result (Unit {0})
opened d (some e) o = err (wrapf "register otel-instrumented driver: " e "")
opened d none (some e) = err (wrapf "open db: " e "")
opened d none none = attempts d max_attempts 1 none

-- `Connect`
unfoldable pub connect : Driver → Result (Unit {0})
connect d = opened d d.register d.open_
