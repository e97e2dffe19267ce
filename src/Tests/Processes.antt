-- ===== src/Tests/Processes.antt =====
-- Runs of cmd/api/main.go, the files of its migrations, and its logger and tracer.
use taskflow_api.Base.{
  String, ◌≡◌, refl, inl, true, false, ◌==◌, Option, none, some, List, [], ◌∷◌, str_eq,
  if◌then◌else◌, pos, leb_ℤ, ◌↔◌, ◌++◌,
}
use mathlib.Core.List.{Perm}
use taskflow_api.Domain.Errors.{ok, err, other, Error}
use taskflow_api.Config.{
  Host, load, settings, validate, problems, complain, get_env_duration, get_env_float, get_env,
  get_env_or_file,
}
use taskflow_api.Database.{connect, attempts}
use taskflow_api.Database.Migrations.{Files, migrate, apply_all, Applied, migrate_iff}
use taskflow_api.Text.{trim_space, trim_right, trim_left, is_space}
use taskflow_api.Text.Sorting.{sort_strings, insert, str_leb, IsSorted}
use taskflow_api.Tracing.{init, traces_url, trim_slashes}
use taskflow_api.Logging.{parse_level, lowers_to, lower_code}
use taskflow_api.Http.Answers.{level_warn, fields_body, respond}
use taskflow_api.Http.Health.{ready}
use taskflow_api.Process.{
  Process, Machine, begun, cfg, loads, inits, connects, migrates, listens, accepts, signals,
  answers, drains, sleeps, shuts_down, stops, shutdown_fails, Reach, here, next, exited, serving,
  closing, accepting, closed, flushed, not_flushed, flush_failed,
}
use taskflow_api.Process.Invariant.{Tried}
use taskflow_api.Process.Shutdown.{
  told, serves_migrated, drains_before_closing, clean_exit, failed_exit_unflushed, signalled_stops,
}
use taskflow_api.Tests.Requests.{request_of, conn_of}
use taskflow_api.Tests.Sample.{stocked}

-- Two migrations, listed in the wrong order.
abbrev pub files : Files
files = record {
  read_dir = ok ("0002_tasks.sql" ∷ "0001_users.sql" ∷ []);
  read_file = λ name. ok name;
}

-- A database that is the list of what it was sent.
abbrev exec : String → List String → Option Error × List String
exec text s = (none, s ++ text ∷ [])

migrated : migrate exec files [] ≡ (none, "0001_users.sql" ∷ "0002_tasks.sql" ∷ [])
unfolding migrate apply_all sort_strings insert str_leb
migrated = refl

migrate_iff_example :
    let after : List String = "0001_users.sql" ∷ "0002_tasks.sql" ∷ [] in
    (order : List String) × Perm order ("0002_tasks.sql" ∷ "0001_users.sql" ∷ [])
    × IsSorted order
    × ((migrate exec files [] ≡ (none, after)) ↔ Applied exec files order [] after)
migrate_iff_example =
    migrate_iff exec files ("0002_tasks.sql" ∷ "0001_users.sql" ∷ []) []
      ("0001_users.sql" ∷ "0002_tasks.sql" ∷ []) refl

-- A machine whose settings are the defaults, but for a delay of one nanosecond.
abbrev host : Host
host = record {
  getenv = λ key. if str_eq key "SHUTDOWN_DRAIN_DELAY" then "1ns" else "";
  read_file = λ path. err (other "no such file");
  parse_duration = λ text. ok (pos 1);
  parse_float = λ text. err (other "invalid syntax");
  float_to_int = λ f. pos 10;
}

abbrev pub machine : Machine (List String)
machine = record {
  host = host;
  otel = record { new_resource = λ service build. none; new_exporter = λ url. none };
  driver = record {
    register = none;
    open_ = none;
    ping = λ n. if n == 3 then none else some (other "connection refused");
    done = λ n. none;
  };
  files = files;
  exec = exec;
  database = [];
}

pub loaded : load host ≡ inl (cfg machine)
unfolding load validate problems complain settings get_env_duration get_env_float get_env
    get_env_or_file
loaded = refl

pub connected : connect machine.driver ≡ ok tt
unfolding connect attempts
connected = refl

-- Main serves, with one request in flight.
abbrev serving_one : Process
serving_one = record begun {
  phase = serving;
  traced = true;
  db_open = true;
  migrated = true;
  server = accepting;
  in_flight = 1;
}

serves : Reach machine begun serving_one
unfolding init migrate apply_all sort_strings insert str_leb settings get_env
serves =
    next
      (next
        (next
          (next
            (next (next here (loads refl loaded)) (
              inits (record { service = "taskflow-api"; build = "dev"; exporter = none }) refl
                refl))
            (connects refl connected))
          (migrates refl refl))
        (listens refl refl))
      (accepts refl refl)

abbrev closing_one : Process
closing_one = record serving_one {
  phase = closing;
  signalled = true;
  drain_flag = true;
  slept = 1;
  server = closed;
}

closes : Reach machine begun closing_one
unfolding settings get_env_duration
closes =
    next (next (next (next serves (signals refl)) (drains refl refl)) (sleeps refl))
      (shuts_down refl refl)

abbrev stopped : Process
stopped = record closing_one { phase = exited 0; in_flight = 0; db_open = false; flush = flushed }

abbrev failed : Process
failed = record closing_one { phase = exited 1 }

serves_migrated_example : (serving_one.migrated ≡ true) × (serving_one.db_open ≡ true)
serves_migrated_example = serves_migrated machine serves refl (inl refl)

drains_before_closing_example :
    let c = conn_of stocked in
    (ready none "dev" (some true) (request_of none) c
      ≡ respond 503 (some (fields_body (("status", "draining") ∷ ("version", "dev") ∷ []))) c)
    × (leb_ℤ (cfg machine).shutdown_drain_delay (pos (told closes)) ≡ true)
    × (closing_one.signalled ≡ true)
drains_before_closing_example =
    drains_before_closing machine none "dev" (request_of none) (conn_of stocked) closes refl

clean_exit_example :
    (stopped.in_flight ≡ 0)
    × (stopped.server ≡ closed)
    × (stopped.db_open ≡ false)
    × (stopped.redis_open ≡ false)
    × Tried stopped.flush
clean_exit_example =
    clean_exit machine (next (next closes (answers 0 refl refl)) (stops none refl refl)) refl

-- A flush that fails is logged, and the process still exits with status 0.
unflushed :
    Reach machine begun
      (record stopped { flush = flush_failed (other "context deadline exceeded") })
unflushed =
    next (next closes (answers 0 refl refl))
      (stops (some (other "context deadline exceeded")) refl refl)

failed_exit_unflushed_example : failed.flush ≡ not_flushed
failed_exit_unflushed_example =
    failed_exit_unflushed machine (next closes (shutdown_fails refl)) refl

signalled_stops_example :
    (t : Process) × Reach machine (record serving_one { signalled = true }) t × (t.phase ≡ exited 0)
signalled_stops_example =
    signalled_stops machine (record serving_one { signalled = true }) refl refl

level_read : parse_level " WARNing" ≡ level_warn
unfolding parse_level lowers_to lower_code trim_space trim_right trim_left is_space
level_read = refl

url_read : traces_url "http://jaeger:4318//" ≡ "http://jaeger:4318/v1/traces"
unfolding traces_url trim_slashes
url_read = refl
