-- ===== src/Lib.antt =====
-- The task API of this repository, as functions on an explicit world, with proofs about them.
--
-- A request passes the middleware and the muxes of internal/httpapi/router.go and reaches a handler
-- of internal/httpapi/handler, which calls a service of internal/service, which calls repositories
-- of internal/repository, each of which sends SQL statements to Postgres. cmd/api/main.go reads the
-- settings, connects to the database, wires the parts together, serves, and shuts down. The modules
-- follow these parts:
-- - Base: the names that the modules share: Boolean tests, lists, signed integers.
-- - Domain: internal/domain (Task, User, RefreshToken, TaskStatus); Domain.Errors: the sentinel
--   errors, `fmt.Errorf` with %w, `==` and `errors.Is` on errors, and the SQLSTATE test of
--   internal/repository/postgres_errors.go.
-- - Sql: SELECT, UPDATE and DELETE on rows; Rows, Keys and Ids hold lemmas on them.
-- - Store: the world (the tables of internal/database/migrations and the number of effects so
--   far), the environment, and the actions that read and write the world and may fail.
-- - Repository: one module for each repository, its statements and its methods under the names of
--   the source in snake case; Interfaces holds the Go interfaces. Consistency and Evolution are
--   two relations between tables, with a lemma for each statement; Allows carries a relation from
--   the statements to the methods.
-- - Strconv and Text: what the program uses of Go's strconv (FormatInt, ParseInt, Atoi in base 10)
--   and strings; Text.Sorting: sort.Strings and strings.Join.
-- - Config: the settings of internal/config/config.go, Load and validate.
-- - Database: Connect of internal/database/database.go, over the answers of the driver;
--   Database.Migrations: Migrate.
-- - Logging and Tracing: internal/logging, internal/tracing and internal/version.
-- - Service: auth_service.go, task_service.go, token.go and refresh_token.go. Refresh is split at
--   its early returns into rotate, revoke_family, exchange and spend.
-- - Server: main's wiring (Deployment, auth_service, task_service) and the calls that the services
--   answer. Its children are about sequences of calls (Runs), refresh tokens (Sessions, Reuse,
--   Rotation, Race), sign-up and log-in (Accounts), and tasks (Ownership, TaskMap, TaskCreation,
--   Pages, where Orders is about ORDER BY). Board is an abstract view of the tables, a map from ids to tasks without rows or order,
--   with what each call may do to it; Board.Refines compares the services with it, Board.Isolation
--   is about several users.
-- - Http: internal/httpapi. Its parts are the types of requests and responses (Dto), the error
--   envelope and the mapping of errors to statuses (Answers), the steps that handlers share
--   (Requests), the handlers (AuthHandler, TaskHandler, Health), the middleware auth.go, cors.go and
--   chain.go (Middleware), security_headers.go, bodylimit.go and timeout.go (Hardening),
--   request_id.go, logging.go, recover.go and metrics.go (Observation), the rate limiters
--   ratelimit*.go (RateLimit), and router.go (Router). Mux is `http.ServeMux` as the language
--   documents it: the segments of a pattern, the methods, the redirect to a path with a slash, 404
--   and 405. The other modules are about these: Gates about Middleware, Replies and Statuses about
--   every handler's answer, Api and Sessions about handlers over the services and the tables,
--   RateLimit.Visitors and RateLimit.Windows about the two limiters, Observation.Calm, Accounts and
--   Panics about what is recorded of a response, Mux.Overlaps about the patterns that match a
--   request, Replies.Calls about the calls of services that handlers make, and Router.Calm,
--   Accounts, Routes, Items, Dispatch, Refusals and Calls about the router.
-- - Process: main of cmd/api/main.go as a step relation on the state of the process: where main
--   stands, the signal, the flag of draining, the server and its requests in flight, the database,
--   the client of Redis, and the tracer with its flush, which may fail. The server's goroutine, the
--   clients and the signals take steps of their own. Process.Wiring: what main makes of the settings.
-- - Seed: getOrCreateUser of cmd/seed/main.go; Seed.Tasks: seedTasksForUser and the loop over the
--   users; Seed.Main: its main.
-- - Tests: the same functions run on small inputs.
--
-- The environment (Store.Env) is a function of the number of effects so far. It says whether a
-- statement works, is refused, or is lost after it took effect; whether RowsAffected, a scan or the
-- iteration fails; what the other clients of the database did before each statement, which is how
-- concurrent requests enter; what the clocks say; what a TIMESTAMPTZ column keeps of an instant; the
-- order of the rows under ORDER BY created_at DESC; and the random bytes. A theorem names what it
-- asks of it: IsQuiet is a database that works and that nobody else uses, Rely lets the others
-- append users and tokens and revoke tokens, and IsConsistent are the constraints of the schema. A
-- context that is cancelled is a statement that is refused or lost.
--
-- Parameters are bcrypt and sha256 (Service.RefreshTokens.Crypto), the JWT library
-- (Service.Tokens.Jwt), the token bucket of x/time/rate, the decoder of JSON bodies
-- (Http.Requests.Json), the driver of the database (Database.Driver), and the host of a process
-- (Config.Host: variables, files, and the parsers of durations and floats), OpenTelemetry's
-- constructors (Tracing.Otel), the embedded files (Database.Migrations.Files), and what the
-- router takes from libraries (Http.Router.Libraries: MaxBytesReader, SplitHostPort, how
-- TimeoutHandler's wait ends, the answer to a redirected path, and the handlers of prometheus
-- and otelhttp). The router sees the backends of the rate limiter as functions of the client and
-- the world (RateLimit.Allow); their own state, the visitors or the counters of Redis, is
-- modelled in RateLimit, apart from it. The state of the database that Migrate works on is any
-- type, with any execution of a text on it; of time.AddDate nothing is asked. Numbers from
-- Postgres and Go's int64 are integers; a BIGSERIAL value is a natural number from its sequence
-- and does not run out. Times are integers (nanoseconds), and arithmetic on durations does not
-- overflow. Every function is by structural recursion; format_nat counts down from one more than
-- its number, which has no more digits than that.
--
-- Not modelled: the HTTP server of net/http with its time-outs, JSON text, the durations that are
-- logged and observed and the histogram of them, the attributes of log lines other than those of the
-- access log, the canonical spelling of header names, escapes in paths and hosts in patterns, spans
-- and their propagation, the settings of the database's pool, the printing of the seed command, how
-- long anything takes (a time-out or a cancelled context is an ending that may come at any moment),
-- and data races. The files of deploy, api and docs, the Dockerfile and docker-compose.yml hold no
-- program logic.
mod Base
pub mod Domain
pub mod Sql
pub mod Store
pub mod Repository
pub mod Strconv
pub mod Text
pub mod Config
pub mod Database
pub mod Service
pub mod Server
pub mod Http
pub mod Seed
pub mod Logging
pub mod Tracing
pub mod Process
mod Tests
