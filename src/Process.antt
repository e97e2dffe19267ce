-- ===== src/Process.antt =====
-- cmd/api/main.go: the process from its start to its exit, as a step relation. The server's goroutine,
-- its clients and the signals take steps of their own, between those of main.
pub mod Invariant
pub mod Shutdown
pub mod Wiring
use taskflow_api.Base.{
  ℕ, suc, String, Bool, true, false, not, ◌≡◌, ◌≢◌, Option, none, some, List, str_eq, ◌⊎◌, inl, inr,
  pos, leb_ℤ,
}
use taskflow_api.Domain.Errors.{Error, ok, err}
use taskflow_api.Config.{Config, Host, settings, load}
use taskflow_api.Tracing.{Otel, Provider, init, version}
use taskflow_api.Database.{Driver, connect}
use taskflow_api.Database.Migrations.{Files, migrate}

-- Where main stands, and with which status the process has exited.
pub data Phase : Type 0 where
  loading tracing connecting migrating serving draining closing : Phase
  exited : ℕ → Phase

-- `srv`: its goroutine was not started, is about to listen, accepts connections, or has its
-- listeners closed by `Shutdown`.
pub data Server : Type 0 where
  not_started starting accepting closed : Server

-- The deferred flush of the trace exporter: it has not run, it succeeded, or it failed, which is only
-- logged.
pub data Flush : Type 0 where
  not_flushed flushed : Flush
  flush_failed : Error → Flush

-- `drain_flag` is the flag that `/readyz` reads, and `slept` is how long main slept before Shutdown,
-- in nanoseconds. The database and the client of Redis are open until `Close` is called, whose error
-- is ignored.
pub record Process : Type 0 where
  pub phase : Phase
  pub signalled : Bool
  pub drain_flag : Bool
  pub slept : ℕ
  pub db_open : Bool
  pub migrated : Bool
  pub redis_open : Bool
  pub traced : Bool
  pub flush : Flush
  pub server : Server
  pub in_flight : ℕ

-- What main starts on: the host, the tracer, the driver, and a database in a state `S`.
pub record Machine (S : Type 0) : Type 0 where
  pub host : Host
  pub otel : Otel
  pub driver : Driver
  pub files : Files
  pub exec : String → S → Option Error × S
  pub database : S

abbrev pub begun : Process
begun = record {
  phase = loading;
  signalled = false;
  drain_flag = false;
  slept = 0;
  db_open = false;
  migrated = false;
  redis_open = false;
  traced = false;
  flush = not_flushed;
  server = not_started;
  in_flight = 0;
}

-- The process has a handler for signals, and has not exited.
abbrev pub is_handling : Phase → Bool
is_handling loading = false
is_handling (exited n) = false
is_handling _ = true

-- `ListenAndServe` can still fail.
abbrev pub is_listening : Server → Bool
is_listening starting = true
is_listening accepting = true
is_listening _ = false

-- `shutdownTracing`, which is deferred once the tracer is there, with the error that it returns.
abbrev pub flushed_by : Option Error → Bool → Flush
flushed_by none true = flushed
flushed_by (some e) true = flush_failed e
flushed_by _ false = not_flushed

module _ {S : Type 0} (m : Machine S) where
  abbrev pub cfg : Config
  cfg = settings m.host

  -- `os.Exit(1)` runs no deferred call.
  abbrev pub os_exit : Process → Process
  os_exit s = record s { phase = exited 1 }

  pub data Step (s : Process) : Process → Type 0 where
    load_fails :
        (errs : List String) → s.phase ≡ loading → load m.host ≡ inr errs → Step s (os_exit s)
    loads : s.phase ≡ loading → load m.host ≡ inl cfg → Step s (record s { phase = tracing })
    init_fails :
        (e : Error)
        → s.phase ≡ tracing
        → init m.otel "taskflow-api" version cfg.tracing_endpoint ≡ err e
        → Step s (os_exit s)
    inits :
        (p : Provider)
        → s.phase ≡ tracing
        → init m.otel "taskflow-api" version cfg.tracing_endpoint ≡ ok p
        → Step s (record s { phase = connecting; traced = true })
    connect_fails :
        (e : Error) → s.phase ≡ connecting → connect m.driver ≡ err e → Step s (os_exit s)
    connects :
        s.phase ≡ connecting
        → connect m.driver ≡ ok tt
        → Step s (record s { phase = migrating; db_open = true })
    migrate_fails :
        (e : Error)
        → s.phase ≡ migrating
        → (migrate m.exec m.files m.database).0 ≡ some e
        → Step s (os_exit s)
    -- The client of Redis, the repositories, the services and the router are made without an error,
    -- and the server's goroutine is started.
    migrates :
        s.phase ≡ migrating
        → (migrate m.exec m.files m.database).0 ≡ none
        → Step s (record s {
          phase = serving;
          migrated = true;
          redis_open = not (str_eq cfg.redis_addr "");
          server = starting;
        })
    listens :
        is_handling s.phase ≡ true → s.server ≡ starting → Step s (record s { server = accepting })
    server_fails : is_handling s.phase ≡ true → is_listening s.server ≡ true → Step s (os_exit s)
    accepts :
        is_handling s.phase ≡ true
        → s.server ≡ accepting
        → Step s (record s { in_flight = suc s.in_flight })
    answers :
        (n : ℕ)
        → is_handling s.phase ≡ true
        → s.in_flight ≡ suc n
        → Step s (record s { in_flight = n })
    signals : is_handling s.phase ≡ true → Step s (record s { signalled = true })
    drains :
        s.phase ≡ serving
        → s.signalled ≡ true
        → Step s (record s { phase = draining; drain_flag = true })
    sleeps : s.phase ≡ draining → Step s (record s { slept = suc s.slept })
    shuts_down :
        s.phase ≡ draining
        → leb_ℤ cfg.shutdown_drain_delay (pos s.slept) ≡ true
        → Step s (record s { phase = closing; server = closed })
    -- `Shutdown` returned after the last answer, and the deferred calls are run.
    stops :
        (failed : Option Error)
        → s.phase ≡ closing
        → s.in_flight ≡ 0
        → Step s (record s {
          phase = exited 0;
          redis_open = false;
          db_open = false;
          flush = flushed_by failed s.traced;
        })
    -- Ten seconds were not enough.
    shutdown_fails : s.phase ≡ closing → Step s (os_exit s)

  pub data Reach (s : Process) : Process → Type 0 where
    here : Reach s s
    next : {t u : Process} → Reach s t → Step t u → Reach s u
