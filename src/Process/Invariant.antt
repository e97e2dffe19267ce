-- ===== src/Process/Invariant.antt =====
-- What holds at every moment of the process of cmd/api/main.go.
use taskflow_api.Base.{Bool, true, false, ◌≡◌, ◌≢◌, pos, leb_ℤ, arith, ◌⊎◌, none, some}
use taskflow_api.Domain.Errors.{Error}
use taskflow_api.Process.{
  Phase, loading, tracing, connecting, migrating, serving, draining, closing, exited, not_started,
  closed, Process, Machine, begun, cfg, Step, Flush, not_flushed, flushed, flush_failed,
  is_handling, load_fails, loads, init_fails, inits, connect_fails, connects, migrate_fails,
  migrates, listens, server_fails, accepts, answers, signals, drains, sleeps, shuts_down, stops,
  shutdown_fails, Reach, here, next,
}

-- Before the server's goroutine is started.
abbrev pub is_booting : Phase → Bool
is_booting loading = true
is_booting tracing = true
is_booting connecting = true
is_booting migrating = true
is_booting _ = false

-- From then on, until the process exits.
abbrev pub is_up : Phase → Bool
is_up serving = true
is_up draining = true
is_up closing = true
is_up _ = false

abbrev is_closing : Phase → Bool
is_closing closing = true
is_closing _ = false

-- The flush was tried, whatever came of it.
abbrev pub Tried : Flush → Type 0
Tried f = (f ≡ flushed) ⊎ ((e : Error) × (f ≡ flush_failed e))

module _ {S : Type 0} (m : Machine S) where
  pub record Inv (s : Process) : Type 0 where
    pub booting_server : is_booting s.phase ≡ true → s.server ≡ not_started
    pub booting_idle : s.server ≡ not_started → s.in_flight ≡ 0
    pub booting_flag : is_booting s.phase ≡ true → s.drain_flag ≡ false
    pub connecting_traced : s.phase ≡ connecting → s.traced ≡ true
    pub migrating_traced : s.phase ≡ migrating → s.traced ≡ true
    pub migrating_open : s.phase ≡ migrating → s.db_open ≡ true
    pub up_migrated : is_up s.phase ≡ true → s.migrated ≡ true
    pub up_open : is_up s.phase ≡ true → s.db_open ≡ true
    pub up_traced : is_up s.phase ≡ true → s.traced ≡ true
    pub serving_open : s.phase ≡ serving → s.server ≢ closed
    pub draining_open : s.phase ≡ draining → s.server ≢ closed
    pub draining_flag : s.phase ≡ draining → s.drain_flag ≡ true
    pub closing_closed : s.phase ≡ closing → s.server ≡ closed
    pub flag_signalled : s.drain_flag ≡ true → s.signalled ≡ true
    pub closed_flag : s.server ≡ closed → s.drain_flag ≡ true
    pub closed_slept : s.server ≡ closed → leb_ℤ (cfg m).shutdown_drain_delay (pos s.slept) ≡ true
    pub failed_flush : s.phase ≡ exited 1 → s.flush ≡ not_flushed
    pub handling_flush : is_handling s.phase ≡ true → s.flush ≡ not_flushed
    pub loading_flush : s.phase ≡ loading → s.flush ≡ not_flushed
    pub exit_idle : s.phase ≡ exited 0 → s.in_flight ≡ 0
    pub exit_closed : s.phase ≡ exited 0 → s.server ≡ closed
    pub exit_db : s.phase ≡ exited 0 → s.db_open ≡ false
    pub exit_redis : s.phase ≡ exited 0 → s.redis_open ≡ false
    pub exit_flush : s.phase ≡ exited 0 → Tried s.flush

  begun-Inv : Inv begun
  begun-Inv = ground arith

  Step-Inv : {s t : Process} → Step m s t → Inv s → Inv t
  Step-Inv (load_fails errs p e) i = ground arith
  Step-Inv (loads p e) i = ground arith
  Step-Inv (init_fails e p h) i = ground arith
  Step-Inv (inits p q h) i = ground arith
  Step-Inv (connect_fails e p h) i = ground arith
  Step-Inv (connects p h) i = ground arith
  Step-Inv (migrate_fails e p h) i = ground arith
  Step-Inv (migrates p h) i = ground arith
  Step-Inv (listens p h) i = ground arith
  Step-Inv (server_fails p h) i = ground arith
  Step-Inv (accepts p h) i = ground arith
  Step-Inv (answers n p h) i = ground arith
  Step-Inv (signals p) i = ground arith
  Step-Inv (drains p h) i = ground arith
  Step-Inv (sleeps p) i = ground arith
  Step-Inv (shuts_down p h) i = ground arith
  Step-Inv (stops none p h) i = ground arith
  Step-Inv (stops (some e) p h) i = ground arith
  Step-Inv (shutdown_fails p) i = ground arith

  pub Reach-Inv : {s : Process} → Reach m begun s → Inv s
  Reach-Inv here = begun-Inv
  Reach-Inv (next r st) = Step-Inv st (Reach-Inv r)
