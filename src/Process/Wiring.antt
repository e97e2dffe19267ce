-- ===== src/Process/Wiring.antt =====
-- cmd/api/main.go: what main makes of the settings: the logger, the services, the router and the
-- server.
use taskflow_api.Base.{
  String, Bool, none, some, Option, List, [], ◌∷◌, str_eq, if◌then◌else◌, ℤ, pos,
}
use Prim.Native.String.{◌++◌ as str_append}
use taskflow_api.Config.{Config}
use taskflow_api.Domain.Errors.{Error}
use taskflow_api.Store.{Env}
use taskflow_api.Service.Tokens.{Jwt}
use taskflow_api.Service.RefreshTokens.{Crypto}
use taskflow_api.Server.{Deployment}
use taskflow_api.Logging
use taskflow_api.Tracing.{version}
use taskflow_api.Http.Answers.{Handler}
use taskflow_api.Http.Requests.{Json}
use taskflow_api.Http.RateLimit.{Allow}
use taskflow_api.Http.Router.{Libraries, Deps, new_router}

-- The logger of the process, and its tags.
abbrev pub logger : Config → Logging.Logger
logger cfg = Logging.new cfg.env cfg.log_level

abbrev pub logger_tags : Config → List (String × String)
logger_tags cfg = ("service", "taskflow-api") ∷ ("env", cfg.env) ∷ ("version", version) ∷ []

-- The services' settings.
abbrev pub deployment : Env → Crypto → Jwt → Config → Deployment
deployment env crypto jwt cfg = record {
  env = env;
  crypto = crypto;
  jwt = jwt;
  jwt_secret = cfg.jwt_secret;
  jwt_expires_in = cfg.jwt_expires_in;
  refresh_token_ttl = cfg.refresh_token_ttl;
}

-- The client of Redis, which answers a ping, if there is an address.
abbrev pub redis_client : (String → Option Error) → Config → Option (Option Error)
redis_client ping cfg = if str_eq cfg.redis_addr "" then none else some (ping cfg.redis_addr)

-- What the process has from outside: the services' libraries, the decoder of bodies, the two
-- backends of the rate limiter, and the pings of Redis and of the database.
pub record Outside : Type 0 where
  pub env : Env
  pub crypto : Crypto
  pub jwt : Jwt
  pub json : Json
  pub redis : Allow
  pub in_memory : Allow
  pub ping_redis : String → Option Error
  pub ping_database : Option Error

-- The argument of `NewRouter`, at a moment of the flag of draining.
abbrev pub deps : Outside → Config → Bool → Deps
deps out cfg draining = record {
  process = deployment out.env out.crypto out.jwt cfg;
  json = out.json;
  config = cfg;
  build_version = version;
  redis_client = redis_client out.ping_redis cfg;
  redis = out.redis;
  in_memory = out.in_memory;
  draining = some draining;
  ping = out.ping_database;
  tags = logger_tags cfg;
}

-- `http.Server`, with its time-outs in nanoseconds.
pub record HttpServer : Type 0 where
  pub addr : String
  pub handler : Handler
  pub read_timeout : ℤ
  pub read_header_timeout : ℤ
  pub write_timeout : ℤ
  pub idle_timeout : ℤ

abbrev pub server : Libraries → Outside → Config → Bool → HttpServer
server lib out cfg draining = record {
  addr = str_append ":" cfg.server_port;
  handler = new_router lib (deps out cfg draining);
  read_timeout = pos 10000000000;
  read_header_timeout = pos 5000000000;
  write_timeout = pos 10000000000;
  idle_timeout = pos 60000000000;
}
