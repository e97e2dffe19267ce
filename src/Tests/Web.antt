-- ===== src/Tests/Web.antt =====
-- The handlers, the middleware and the settings at concrete inputs.
use taskflow_api.Database.{Driver, connect, attempts}
use taskflow_api.Database.Retries.{Reaches, connect_iff}
use taskflow_api.Base.{
  ℕ, ◌≤◌, ◌<◌, ◌==◌, if◌then◌else◌, ◌≡◌, refl, ◌↔◌, ◌⊎◌, Option, none, some, [], ◌∷◌, Bool, true,
  false, pos,
}
use taskflow_api.Domain.Errors.{ok, Error, Sentinel, other, is, err}
use taskflow_api.Text.{split_space, equal_fold, fold_code}
use taskflow_api.Config.{Host, validate, settings}
use taskflow_api.Config.Validation.{IsSound, validate_iff}
use taskflow_api.Http.Answers.{set_header, without, write_domain_error}
use taskflow_api.Http.AuthHandler
use taskflow_api.Http.TaskHandler
use taskflow_api.Http.TaskHandler.{parse_task_id}
use taskflow_api.Http.Health.{health}
use taskflow_api.Http.Middleware.{bearer}
use taskflow_api.Http.Gates.{Admitted, Rejected, auth_gate}
use taskflow_api.Http.Replies.{handlers_answer}
use taskflow_api.Http.Replies.Steps.{Answered}
use taskflow_api.Http.Statuses.{internal_iff}
use taskflow_api.Tests.Requests.{json, request_of, conn_of}
use taskflow_api.Tests.Sample.{process, stocked}

-- A host on which no variable is set.
abbrev pub host : Host
host = record {
  getenv = λ key. "";
  read_file = λ path. err (other "no such file");
  parse_duration = λ text. err (other "invalid duration");
  parse_float = λ text. err (other "invalid syntax");
  float_to_int = λ f. pos 10;
}

validate_iff_example : (validate (settings host) ≡ none) ↔ IsSound (settings host)
validate_iff_example = validate_iff (settings host)

auth_gate_example :
    Admitted process (health "1") (request_of none) (conn_of stocked)
    ⊎ Rejected process (health "1") (request_of none) (conn_of stocked)
auth_gate_example = auth_gate process (health "1") (request_of none) (conn_of stocked)

bearer_found : bearer "bearer 1" ≡ some "1"
unfolding bearer split_space equal_fold fold_code
bearer_found = refl

handlers_answer_example :
    let r = request_of (some (pos 1)) in
    let c = conn_of stocked in
    Answered (AuthHandler.signup json process r c)
    × Answered (AuthHandler.login json process r c)
    × Answered (AuthHandler.refresh json process r c)
    × Answered (AuthHandler.logout json process r c)
    × Answered (TaskHandler.create json process r c)
    × Answered (TaskHandler.list json process r c)
    × Answered (TaskHandler.get json process r c)
    × Answered (TaskHandler.update json process r c)
    × Answered (TaskHandler.delete json process r c)
handlers_answer_example =
    handlers_answer json process (request_of (some (pos 1))) (conn_of stocked) refl refl

internal_iff_example :
    ((write_domain_error (request_of none) (other "down") (conn_of stocked)).writer.sent
      ≡ some (500, ("Content-Type", "application/json") ∷ []))
    ↔ ((s : Sentinel) → is (other "down") s ≡ false)
unfolding set_header without
internal_iff_example = internal_iff (request_of none) (other "down") (conn_of stocked) refl

abbrev no_error : Option Error
no_error = none

abbrev is_draining : Option Bool
is_draining = some true

-- A database that answers the third ping.
abbrev driver : Driver
driver = record {
  register = none;
  open_ = none;
  ping = λ n. if n == 3 then none else some (other "connection refused");
  done = λ n. none;
}

connect_iff_example : (connect driver ≡ ok tt) ↔ ((n : ℕ) × (1 ≤ n) × (n < 11) × Reaches driver 1 n)
connect_iff_example = connect_iff driver refl refl

connected : connect driver ≡ ok tt
unfolding connect attempts
connected = refl
