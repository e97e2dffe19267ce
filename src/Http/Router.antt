-- ===== src/Http/Router.antt =====
-- internal/httpapi/router.go: the routes, and the middleware around them.
pub mod Calm
pub mod Accounts
pub mod Routes
pub mod Items
pub mod Refusals
pub mod Calls
pub mod Dispatch
use taskflow_api.Base.{String, Bool, Option, List, [], ◌∷◌, ℤ}
use taskflow_api.Config.{Config}
use taskflow_api.Domain.Errors.{Error}
use taskflow_api.Server.{Deployment}
use taskflow_api.Http.Answers.{Request, Conn, Handler}
use taskflow_api.Http.Requests.{Json}
use taskflow_api.Http.AuthHandler
use taskflow_api.Http.TaskHandler
use taskflow_api.Http.Health.{health, ready}
use taskflow_api.Http.Middleware.{Middleware, auth, cors, chain}
use taskflow_api.Http.Hardening.{Ending, security_headers, max_body_bytes, timeout}
use taskflow_api.Http.Observation.{request_id, logging, recover, metrics}
use taskflow_api.Http.RateLimit.{Allow, client_ip, limit, new_rate_limiter}
use taskflow_api.Http.Mux.{literal, wildcard, subtree, Segment, Route, serve_mux}

-- What the router takes from libraries: the answer of a mux to a path that it redirects, what
-- `http.MaxBytesReader` lets through, how the wait of `http.TimeoutHandler` ends,
-- `net.SplitHostPort`, and the handlers of prometheus and OpenTelemetry.
pub record Libraries : Type 0 where
  pub redirect : Handler
  pub max_bytes_reader : ℤ → String → String
  pub ending : Request → Conn → Ending
  pub split_host_port : String → Option String
  pub metrics_page : Handler
  pub instrument : Middleware

-- `Deps`, with the process that the services run in, the decoder of bodies, the tags of the default
-- logger, the two backends of the rate limiter and the ping of Redis, and what the flag of draining
-- and the ping of the database say when a request asks.
pub record Deps : Type 0 where
  pub process : Deployment
  pub json : Json
  pub config : Config
  pub build_version : String
  pub redis_client : Option (Option Error)
  pub redis : Allow
  pub in_memory : Allow
  pub draining : Option Bool
  pub ping : Option Error
  pub tags : List (String × String)

abbrev pub route : String → String → List Segment → Handler → Route
route pattern method segments handler = record {
  pattern = pattern;
  method = method;
  segments = segments;
  handler = handler;
}

-- The paths below "/api/v1/".
abbrev pub api_path : List Segment → List Segment
api_path segments = literal "api" ∷ literal "v1" ∷ segments

module _ (lib : Libraries) (d : Deps) where
  abbrev pub create_route : Route
  create_route =
      route "POST /api/v1/tasks" "POST" (api_path (literal "tasks" ∷ []))
        (TaskHandler.create d.json d.process)

  abbrev pub list_route : Route
  list_route =
      route "GET /api/v1/tasks" "GET" (api_path (literal "tasks" ∷ []))
        (TaskHandler.list d.json d.process)

  abbrev pub get_route : Route
  get_route =
      route "GET /api/v1/tasks/{id}" "GET" (api_path (literal "tasks" ∷ wildcard "id" ∷ []))
        (TaskHandler.get d.json d.process)

  abbrev pub update_route : Route
  update_route =
      route "PUT /api/v1/tasks/{id}" "PUT" (api_path (literal "tasks" ∷ wildcard "id" ∷ []))
        (TaskHandler.update d.json d.process)

  abbrev pub delete_route : Route
  delete_route =
      route "DELETE /api/v1/tasks/{id}" "DELETE" (api_path (literal "tasks" ∷ wildcard "id" ∷ []))
        (TaskHandler.delete d.json d.process)

  abbrev pub protected_routes : List Route
  protected_routes = create_route ∷ list_route ∷ get_route ∷ update_route ∷ delete_route ∷ []

  -- The mux of the routes behind authentication.
  unfoldable pub protected : Handler
  protected = serve_mux lib.redirect protected_routes

  abbrev pub api_routes : List Route
  api_routes =
      route "POST /api/v1/auth/signup" "POST" (api_path (literal "auth" ∷ literal "signup" ∷ []))
        (AuthHandler.signup d.json d.process)
      ∷ route "POST /api/v1/auth/login" "POST" (api_path (literal "auth" ∷ literal "login" ∷ []))
          (AuthHandler.login d.json d.process)
      ∷ route "POST /api/v1/auth/refresh" "POST"
          (api_path (literal "auth" ∷ literal "refresh" ∷ []))
          (AuthHandler.refresh d.json d.process)
      ∷ route "POST /api/v1/auth/logout" "POST" (api_path (literal "auth" ∷ literal "logout" ∷ []))
          (AuthHandler.logout d.json d.process)
      ∷ route "/api/v1/tasks" "" (api_path (literal "tasks" ∷ [])) (auth d.process protected)
      ∷ route "/api/v1/tasks/" "" (api_path (literal "tasks" ∷ subtree ∷ []))
          (auth d.process protected)
      ∷ []

  unfoldable pub api : Handler
  api = serve_mux lib.redirect api_routes

  abbrev pub limiter : Allow
  limiter = (new_rate_limiter d.redis_client d.redis d.in_memory).0

  abbrev pub client_of : Request → String
  client_of r = client_ip lib.split_host_port r.remote_addr r

  -- The middleware of the API, the outermost first.
  abbrev pub api_middleware : List Middleware
  api_middleware =
      cors d.config.allowed_origins
      ∷ max_body_bytes lib.max_bytes_reader d.config.max_body_bytes
      ∷ limit limiter client_of
      ∷ timeout lib.ending
      ∷ []

  unfoldable pub api_handler : Handler
  api_handler = chain api_middleware api

  abbrev pub root_routes : List Route
  root_routes =
      route "GET /healthz" "GET" (literal "healthz" ∷ []) (health d.build_version)
      ∷ route "GET /readyz" "GET" (literal "readyz" ∷ []) (ready d.ping d.build_version d.draining)
      ∷ route "GET /metrics" "GET" (literal "metrics" ∷ []) lib.metrics_page
      ∷ route "/api/v1/" "" (api_path (subtree ∷ [])) api_handler
      ∷ []

  unfoldable pub root : Handler
  root = serve_mux lib.redirect root_routes

  -- The middleware of every request, the outermost first.
  abbrev pub root_middleware : List Middleware
  root_middleware =
      request_id d.process.env d.tags ∷ logging ∷ recover ∷ metrics ∷ security_headers ∷ []

  unfoldable pub handler_chain : Handler
  handler_chain = chain root_middleware root

  -- `NewRouter`
  unfoldable pub new_router : Handler
  new_router = lib.instrument handler_chain
