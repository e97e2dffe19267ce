-- ===== src/Http/Observation.antt =====
-- internal/httpapi/middleware: request_id.go, logging.go, recover.go and metrics.go, and
-- internal/httpapi/reqctx. How long a request takes is left out.
pub mod Calm
pub mod Accounts
pub mod Panics
use taskflow_api.Base.{
  ℕ, String, Option, none, some, List, [], ◌∷◌, ◌++◌, str_eq, leb, if◌then◌else◌,
}
use taskflow_api.Domain.Errors.{Result, ok, err}
use taskflow_api.Store.{Env, World, rand_read}
use taskflow_api.Service.RefreshTokens.{hex}
use taskflow_api.Http.Answers.{
  Recorder, Writer, set_header, Level, level_info, level_warn, level_error, AccessLine, Request,
  Conn, on_copy, respond_error,
}
use taskflow_api.Http.Middleware.{Middleware}

-- `generateRequestID`, after `rand.Read`.
abbrev pub id_of_bytes : Result (List ℕ) → String
id_of_bytes (ok b) = hex b
id_of_bytes (err e) = "unknown"

-- `generateRequestID`
unfoldable pub generate_request_id : Env → World → String × World
generate_request_id env w = let (b, w') = rand_read env 8 w in (id_of_bytes b, w')

unfoldable pub id_or_new : Env → String → World → String × World
id_or_new env id w = if str_eq id "" then generate_request_id env w else (id, w)

abbrev with_trace_id : Option String → List (String × String) → List (String × String)
with_trace_id none tags = tags
with_trace_id (some trace_id) tags = tags ++ ("trace_id", trace_id) ∷ []

-- `reqctx.WithRequestID` and `reqctx.WithLogger`
abbrev with_request_id : String → Request → Request
with_request_id id r = record r { request_id = id }

abbrev with_logger : List (String × String) → Request → Request
with_logger tags r = record r { tags = tags }

-- A request with its id, and a logger that has the id and the trace's id.
abbrev pub with_id : List (String × String) → String → Request → Request
with_id tags id r =
    with_logger (with_trace_id r.trace_id (tags ++ ("request_id", id) ∷ [])) (with_request_id id r)

-- `RequestID`, with the tags of the default logger.
unfoldable pub request_id : Env → List (String × String) → Middleware
request_id env tags next r c =
    let (id, w) = id_or_new env (r.header "X-Request-ID") c.world in
    on_copy next (with_id tags id r)
      (record c { writer = set_header "X-Request-ID" id c.writer; world = w })

-- `rec := &statusRecorder{ResponseWriter: w, status: http.StatusOK}`
abbrev pub push_recorder : Writer → Writer
push_recorder w = record w { recorders = record { status = 200; written = [] } ∷ w.recorders }

abbrev pub recorder_of : List Recorder → Recorder
recorder_of [] = record { status = 200; written = [] }
recorder_of (rec ∷ recs) = rec

abbrev pub without_recorder : List Recorder → List Recorder
without_recorder [] = []
without_recorder (rec ∷ recs) = recs

abbrev pub pop_recorder : Writer → Writer
pop_recorder w = record w { recorders = without_recorder w.recorders }

-- What follows `next.ServeHTTP(rec, r)`, which a panic skips.
abbrev pub unless_panic : Option String → (Conn → Conn) → Conn → Conn
unless_panic none after c = after c
unless_panic (some p) after c = c

-- The next handler behind a recorder, and what follows it.
unfoldable pub recorded : (Request → Recorder → Conn → Conn) → Middleware
recorded after next r c =
    let c' = next r (record c { writer = push_recorder c.writer }) in
    unless_panic c'.panic (after r (recorder_of c'.writer.recorders))
      (record c' { writer = pop_recorder c'.writer })

unfoldable pub level_of : ℕ → Level
level_of status =
    if leb 500 status then level_error else if leb 400 status then level_warn else level_info

unfoldable pub access_line : Request → Recorder → AccessLine
access_line r rec = record {
  tags = r.tags;
  level = level_of rec.status;
  method = r.method;
  path = r.path;
  status = rec.status;
  written = rec.written;
  remote_addr = r.remote_addr;
  user_agent = r.header "User-Agent";
}

abbrev pub log_access : Request → Recorder → Conn → Conn
log_access r rec c = record c { access = c.access ++ access_line r rec ∷ [] }

-- `Logging`
unfoldable pub logging : Middleware
logging = recorded log_access

unfoldable pub route_of : String → String
route_of pattern = if str_eq pattern "" then "unmatched" else pattern

-- The counter is incremented at the labels of the request.
abbrev pub count_request : Request → Recorder → Conn → Conn
count_request r rec c = record c {
  requests_total =
      c.requests_total
      ++ record { method = r.method; route = route_of c.pattern; status = rec.status } ∷ [];
}

-- `Metrics`
unfoldable pub metrics : Middleware
metrics = recorded count_request

-- The deferred function of `Recover`, with the value that it recovers.
abbrev pub recovered : Option String → Request → Conn → Conn
recovered none r c = c
recovered (some p) r c =
    respond_error r 500 "INTERNAL_ERROR" "internal server error"
      (record c { panic = none; log = c.log ++ ("panic recovered", p) ∷ [] })

-- `Recover`
unfoldable pub recover : Middleware
recover next r c = let c' = next r c in recovered c'.panic r c'
