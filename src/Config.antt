-- ===== src/Config.antt =====
-- internal/config/config.go: the settings that a process reads from its environment, and their
-- validation.
pub mod Validation
use taskflow_api.Base.{
  ◌⊎◌, inl, inr, ℕ, String, Bool, false, not, ◌||◌, Option, none, some, List, [], ◌∷◌, ◌++◌, str_eq,
  ltb, ◌==◌, if◌then◌else◌, ℤ, pos, ltb_ℤ, leb_ℤ,
}
use taskflow_api.Domain.Errors.{Result, ok, err}
use taskflow_api.Text.{byte_length, trim_space, split_commas}
use Prim.Native.String.{◌++◌ as str_append}

-- A float64: a sign, a significand and an exponent of 2, or one of the special values.
pub data Float64 : Type 0 where
  nan : Float64
  infinite : Bool → Float64
  finite : Bool → ℕ → ℤ → Float64

-- `f <= 0`, which is false of NaN.
abbrev pub float_leb_zero : Float64 → Bool
float_leb_zero nan = false
float_leb_zero (infinite negative) = negative
float_leb_zero (finite negative significand exponent) = negative || (significand == 0)

pub record DbConfig : Type 0 where
  pub host : String
  pub port : String
  pub user : String
  pub password : String
  pub name : String
  pub ssl_mode : String

pub record Config : Type 0 where
  pub env : String
  pub server_port : String
  pub log_level : String
  pub db : DbConfig
  pub jwt_secret : String
  pub jwt_expires_in : ℤ
  pub refresh_token_ttl : ℤ
  pub allowed_origins : List String
  pub rate_limit_rps : Float64
  pub rate_limit_burst : ℤ
  pub request_timeout : ℤ
  pub max_body_bytes : ℤ
  pub redis_addr : String
  pub tracing_endpoint : String
  pub shutdown_drain_delay : ℤ

unfoldable pub dsn : DbConfig → String
dsn d = str_append "postgres://" (
    str_append d.user (
      str_append ":" (
        str_append d.password (
          str_append "@" (
            str_append d.host (
              str_append ":" (
                str_append d.port
                  (str_append "/" (str_append d.name (str_append "?sslmode=" d.ssl_mode))))))))))

abbrev pub default_jwt_secret : String
default_jwt_secret = "dev-secret-change-me"

-- `if bad { errs = append(errs, errors.New(text)) }`
unfoldable pub complain : Bool → String → List String → List String
complain bad text errs = if bad then errs ++ text ∷ [] else errs

-- The two tests that only production makes.
unfoldable pub complain_production : Config → List String → List String
complain_production c errs =
    complain (ltb (byte_length c.jwt_secret) 32)
      "JWT_SECRET must be at least 32 characters in production"
      (complain (str_eq c.jwt_secret default_jwt_secret)
        "JWT_SECRET must be overridden from its default value in production" errs)

unfoldable pub problems : Config → List String
problems c = do
  let db_missing =
      str_eq c.db.host "" || str_eq c.db.port "" || str_eq c.db.user "" || str_eq c.db.name ""
  let e1 = complain (str_eq c.server_port "") "SERVER_PORT must not be empty" []
  let e2 = complain db_missing "DB_HOST, DB_PORT, DB_USER, and DB_NAME must not be empty" e1
  let e3 = complain (str_eq c.jwt_secret "") "JWT_SECRET must not be empty" e2
  let e4 = if str_eq c.env "production" then complain_production c e3 else e3
  let e5 = complain (float_leb_zero c.rate_limit_rps) "RATE_LIMIT_RPS must be positive" e4
  let e6 = complain (leb_ℤ c.rate_limit_burst (pos 0)) "RATE_LIMIT_BURST must be positive" e5
  let e7 = complain (leb_ℤ c.request_timeout (pos 0)) "REQUEST_TIMEOUT must be positive" e6
  let e8 = complain (leb_ℤ c.max_body_bytes (pos 0)) "MAX_BODY_BYTES must be positive" e7
  let e9 = complain (leb_ℤ c.jwt_expires_in (pos 0)) "JWT_EXPIRES_IN must be positive" e8
  let e10 =
      complain (leb_ℤ c.refresh_token_ttl (pos 0)) "REFRESH_TOKEN_EXPIRES_IN must be positive" e9
  let e11 =
      complain (leb_ℤ c.refresh_token_ttl c.jwt_expires_in)
        "REFRESH_TOKEN_EXPIRES_IN must be longer than JWT_EXPIRES_IN" e10
  complain (ltb_ℤ c.shutdown_drain_delay (pos 0)) "SHUTDOWN_DRAIN_DELAY must not be negative" e11

-- `errors.Join`, which is nil of no errors, as the list of their texts.
abbrev pub join : List String → Option (List String)
join [] = none
join (e ∷ es) = some (e ∷ es)

unfoldable pub validate : Config → Option (List String)
validate c = join (problems c)

-- The end of `Load`.
abbrev pub loaded : Config → Option (List String) → Config ⊎ List String
loaded c none = inl c
loaded c (some errs) = inr errs

-- What the operating system and the parsers of Go's library answer to the process: `os.Getenv`,
-- `os.ReadFile`, `time.ParseDuration`, `strconv.ParseFloat`, and the conversion of a float64 to int.
pub record Host : Type 0 where
  pub getenv : String → String
  pub read_file : String → Result String
  pub parse_duration : String → Result ℤ
  pub parse_float : String → Result Float64
  pub float_to_int : Float64 → ℤ

abbrev ok_or : {A : Type 0} → Result A → A → A
ok_or (ok a) fallback = a
ok_or (err e) fallback = fallback

abbrev file_or : Result String → String → String
file_or (ok contents) fallback = trim_space contents
file_or (err e) fallback = fallback

unfoldable pub drop_blank : List String → List String
drop_blank [] = []
drop_blank (p ∷ ps) =
    let rest = drop_blank ps in if str_eq (trim_space p) "" then rest else trim_space p ∷ rest

module _ (host : Host) where
  unfoldable pub get_env : String → String → String
  get_env key fallback = if str_eq (host.getenv key) "" then fallback else host.getenv key

  unfoldable pub get_env_or_file : String → String → String
  get_env_or_file key fallback = do
    let path = host.getenv (str_append key "_FILE")
    if str_eq path "" then get_env key fallback else file_or (host.read_file path) fallback

  unfoldable pub get_env_duration : String → ℤ → ℤ
  get_env_duration key fallback = do
    let v = host.getenv key
    if str_eq v "" then fallback else ok_or (host.parse_duration v) fallback

  unfoldable pub get_env_float : String → Float64 → Float64
  get_env_float key fallback = do
    let v = host.getenv key
    if str_eq v "" then fallback else ok_or (host.parse_float v) fallback

  unfoldable pub get_env_list : String → List String → List String
  get_env_list key fallback = do
    let v = host.getenv key
    if str_eq v "" then fallback else drop_blank (split_commas v)

  -- The settings that `Load` reads, with durations in nanoseconds.
  unfoldable pub settings : Config
  settings = record {
    env = get_env "ENV" "development";
    server_port = get_env "SERVER_PORT" "8080";
    log_level = get_env "LOG_LEVEL" "info";
    db = record {
      host = get_env "DB_HOST" "localhost";
      port = get_env "DB_PORT" "5432";
      user = get_env "DB_USER" "taskflow";
      password = get_env_or_file "DB_PASSWORD" "taskflow";
      name = get_env "DB_NAME" "taskflow";
      ssl_mode = get_env "DB_SSLMODE" "disable";
    };
    jwt_secret = get_env_or_file "JWT_SECRET" default_jwt_secret;
    jwt_expires_in = get_env_duration "JWT_EXPIRES_IN" (pos 900000000000);
    refresh_token_ttl = get_env_duration "REFRESH_TOKEN_EXPIRES_IN" (pos 2592000000000000);
    allowed_origins = get_env_list "CORS_ALLOWED_ORIGINS" ("*" ∷ []);
    rate_limit_rps = get_env_float "RATE_LIMIT_RPS" (finite false 5 (pos 0));
    rate_limit_burst =
        host.float_to_int (get_env_float "RATE_LIMIT_BURST" (finite false 10 (pos 0)));
    request_timeout = get_env_duration "REQUEST_TIMEOUT" (pos 15000000000);
    max_body_bytes =
        host.float_to_int (get_env_float "MAX_BODY_BYTES" (finite false 1048576 (pos 0)));
    redis_addr = get_env "REDIS_ADDR" "";
    tracing_endpoint = get_env "OTEL_EXPORTER_OTLP_ENDPOINT" "";
    shutdown_drain_delay = get_env_duration "SHUTDOWN_DRAIN_DELAY" (pos 5000000000);
  }

  -- `Load`: the settings, or what is wrong with them.
  unfoldable pub load : Config ⊎ List String
  load = loaded settings (validate settings)
