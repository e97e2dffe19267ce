-- ===== src/Http/Answers.antt =====
-- internal/httpapi/response and handler/errors.go: the envelope of a response, and the mapping of
-- errors to statuses. The text of JSON is left out: the body holds the value that is encoded, whose
-- encoding does not fail.
use taskflow_api.Base.{
  String, ℕ, Option, ℤ, none, some, List, [], ◌∷◌, ◌++◌, map, str_eq, if◌then◌else◌,
}
use taskflow_api.Domain.Errors.{
  not_found, already_exists, invalid_credentials, token_invalid, forbidden, validation, Error, is,
  error_text,
}
use taskflow_api.Store.{World}
use taskflow_api.Http.Dto.{AuthResponse, TokenResponse, TaskResponse, TaskListResponse}

pub record ErrorBody : Type 0 where
  pub error : String
  pub code : String
  pub request_id : String

-- What is encoded into a body.
pub data Payload : Type 0 where
  error_body : ErrorBody → Payload
  auth_body : AuthResponse → Payload
  token_body : TokenResponse → Payload
  task_body : TaskResponse → Payload
  task_list_body : TaskListResponse → Payload
  fields_body : List (String × String) → Payload
  text_body : String → Payload

abbrev pub Headers : Type 0
Headers = List (String × String)

-- `statusRecorder` of middleware/logging.go, without the writer that it wraps: the last status, and
-- what was written, whose size the source counts in bytes.
pub record Recorder : Type 0 where
  pub status : ℕ
  pub written : List Payload

-- `http.ResponseWriter`: the headers so far, the status and headers once they are sent, what was
-- written of the body, and the recorders that are wrapped around it, the innermost of the handlers'
-- wrappers first.
pub record Writer : Type 0 where
  pub headers : Headers
  pub sent : Option (ℕ × Headers)
  pub body : List Payload
  pub recorders : List Recorder

unfoldable pub without : String → Headers → Headers
without name [] = []
without name ((n, v) ∷ hs) =
    let rest = without name hs in if str_eq n name then rest else (n, v) ∷ rest

-- `w.Header().Set(name, value)`
unfoldable pub set_header : String → String → Writer → Writer
set_header name value w = record w { headers = (name, value) ∷ without name w.headers }

abbrev send : ℕ → Headers → Option (ℕ × Headers) → Option (ℕ × Headers)
send status hs none = some (status, hs)
send status hs (some first) = some first

-- `statusRecorder.WriteHeader` and `statusRecorder.Write`, beside the writer that is wrapped.
abbrev pub note_status : ℕ → Recorder → Recorder
note_status status rec = record rec { status = status }

abbrev pub note_write : Payload → Recorder → Recorder
note_write p rec = record rec { written = rec.written ++ p ∷ [] }

-- `w.WriteHeader(status)`: only the first one counts for the client, and the last one for a recorder.
unfoldable pub write_header : ℕ → Writer → Writer
write_header status w = record w {
  sent = send status w.headers w.sent;
  recorders = map (note_status status) w.recorders;
}

-- `w.Write`, after a status was sent.
unfoldable pub write : Payload → Writer → Writer
write p w = record w { body = w.body ++ p ∷ []; recorders = map (note_write p) w.recorders }

-- `slog.Level`, as far as the program uses it.
pub data Level : Type 0 where
  level_debug level_info level_warn level_error : Level

-- A line of the access log: what the logger was tagged with, and the attributes of the line.
pub record AccessLine : Type 0 where
  pub tags : List (String × String)
  pub level : Level
  pub method : String
  pub path : String
  pub status : ℕ
  pub written : List Payload
  pub remote_addr : String
  pub user_agent : String

-- The labels of one increment of `http_requests_total`.
pub record Sample : Type 0 where
  pub method : String
  pub route : String
  pub status : ℕ

-- What one request works on: the response, the database and the clocks, the lines of the log, those
-- of the access log apart from the others, the increments of the counter, `r.Pattern` of the request
-- at hand, and the value that a handler panicked with, if it does.
pub record Conn : Type 0 where
  pub writer : Writer
  pub world : World
  pub log : List (String × String)
  pub access : List AccessLine
  pub requests_total : List Sample
  pub pattern : String
  pub panic : Option String

-- The request's parts that the handlers and the middleware of this model read. `user_id`,
-- `request_id`, the tags of the logger and the trace id of the span are the values of its context.
pub record Request : Type 0 where
  pub method : String
  pub path : String
  pub remote_addr : String
  pub header : String → String
  pub path_value : String → String
  pub query : String → String
  pub body : String
  pub user_id : Option ℤ
  pub request_id : String
  pub tags : List (String × String)
  pub trace_id : Option String

-- `http.Handler`. A handler that panics leaves the panic's value in the `Conn`.
abbrev pub Handler : Type 0
Handler = Request → Conn → Conn

-- A handler that is given a copy of the request (`r.WithContext`): the pattern that is stored in the
-- copy is not seen in the original.
abbrev pub on_copy : Handler → Handler
on_copy next r c = record (next r c) { pattern = c.pattern }

-- `response.JSON`
unfoldable pub respond : ℕ → Option Payload → Conn → Conn
unfolding set_header write_header write
respond status payload c = do
  let w = write_header status (set_header "Content-Type" "application/json" c.writer)
  record c { writer = elim payload [ none ↦ w | some p ↦ write p w ] }

-- `response.Error`
unfoldable pub respond_error : Request → ℕ → String → String → Conn → Conn
respond_error r status code message =
    respond status
      (some (error_body (record { error = message; code = code; request_id = r.request_id })))

-- `reqctx.Logger(ctx).Error(message, "error", err)`
abbrev pub log_error : String → Error → Conn → Conn
log_error message e c = record c { log = c.log ++ (message, error_text e) ∷ [] }

-- `writeDomainError`
unfoldable pub write_domain_error : Request → Error → Conn → Conn
write_domain_error r e c =
    if is e not_found
    then respond_error r 404 "NOT_FOUND" (error_text e) c
    else if is e already_exists
    then respond_error r 409 "ALREADY_EXISTS" (error_text e) c
    else if is e invalid_credentials
    then respond_error r 401 "UNAUTHORIZED" (error_text e) c
    else if is e token_invalid
    then respond_error r 401 "UNAUTHORIZED" (error_text e) c
    else if is e forbidden
    then respond_error r 403 "FORBIDDEN" (error_text e) c
    else if is e validation
    then respond_error r 400 "VALIDATION_ERROR" (error_text e) c
    else respond_error r 500 "INTERNAL_ERROR" "internal server error"
        (log_error "unhandled error" e c)
