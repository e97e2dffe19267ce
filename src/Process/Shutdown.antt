-- ===== src/Process/Shutdown.antt =====
-- How the process of cmd/api/main.go starts to serve, drains, and exits.
use taskflow_api.Base.{
  ℕ, zero, suc, ◌+◌, ◌<◌, String, Bool, true, false, if◌then◌else◌, ◌&&◌, ◌≡◌, ◌≢◌, refl, ◌⊎◌, inl,
  inr, Option, none, some, ℤ, pos, negsuc, leb_ℤ, arith, [], ◌∷◌,
}
use taskflow_api.Domain.Errors.{Error}
use taskflow_api.Http.Answers.{Request, Conn, fields_body, respond}
use taskflow_api.Http.Health.{ready}
use taskflow_api.Process.{
  Phase, serving, draining, closing, exited, accepting, closed, Process, Machine, begun,
  is_handling, cfg, Step, answers, drains, sleeps, shuts_down, stops, Reach, here, next, load_fails,
  loads, init_fails, inits, connect_fails, connects, migrate_fails, migrates, listens, server_fails,
  accepts, signals, shutdown_fails, Server, not_flushed,
}
use taskflow_api.Process.Invariant.{Inv, Reach-Inv, is_up, Tried}

up_cases : (p : Phase) → is_up p ≡ true → (p ≡ serving) ⊎ ((p ≡ draining) ⊎ (p ≡ closing))
up_cases p h = ground arith

-- The listeners are not closed.
abbrev pub is_open : Server → Bool
is_open closed = false
is_open _ = true

open_server : (s : Server) → s ≢ closed → is_open s ≡ true
open_server s ne = ground arith

-- The nanosecond of a sleep counts if the flag of draining is set and the listeners are not closed;
-- no other step takes counted time.
abbrev pub counts : {S : Type 0} {m : Machine S} {s t : Process} → Step m s t → ℕ
counts {s = s} (sleeps p) = if s.drain_flag && is_open s.server then 1 else 0
counts _ = 0

-- The time in a run that main slept while the load balancer was told, in nanoseconds.
abbrev pub told : {S : Type 0} {m : Machine S} {s t : Process} → Reach m s t → ℕ
told here = 0
told (next r st) = told r + counts st

module _ {S : Type 0} (m : Machine S) where
  -- The process takes no request before it can serve it: as long as it has not exited, while it
  -- accepts connections or a request is in flight, the migrations were applied and the database is
  -- open.
  pub serves_migrated :
      {s : Process}
      → Reach m begun s
      → is_handling s.phase ≡ true
      → (s.server ≡ accepting) ⊎ (0 < s.in_flight)
      → (s.migrated ≡ true) × (s.db_open ≡ true)
  serves_migrated {s} r alive busy = ground (arith, Reach-Inv m r)

  counts-slept : {s t : Process} (st : Step m s t) → Inv m s → t.slept ≡ s.slept + counts st
  counts-slept (load_fails errs p e) i = omega arith
  counts-slept (loads p e) i = omega arith
  counts-slept (init_fails e p h) i = omega arith
  counts-slept (inits p q h) i = omega arith
  counts-slept (connect_fails e p h) i = omega arith
  counts-slept (connects p h) i = omega arith
  counts-slept (migrate_fails e p h) i = omega arith
  counts-slept (migrates p h) i = omega arith
  counts-slept (listens p h) i = omega arith
  counts-slept (server_fails p h) i = omega arith
  counts-slept (accepts p h) i = omega arith
  counts-slept (answers n p h) i = omega arith
  counts-slept (signals p) i = omega arith
  counts-slept (drains p h) i = omega arith
  counts-slept {s} (sleeps p) i =
      rw (i.draining_flag p, open_server s.server (i.draining_open p)) (omega arith)
  counts-slept (shuts_down p h) i = omega arith
  counts-slept (stops failed p h) i = omega arith
  counts-slept (shutdown_fails p) i = omega arith

  told-slept : {s : Process} (r : Reach m begun s) → told r ≡ s.slept
  told-slept here = refl
  told-slept (next r st) = ground (arith, told-slept r, counts-slept st (Reach-Inv m r))

  -- Connections are cut only after the load balancer was told: once the listeners are closed, a
  -- signal has come, the flag of draining is set, with which /readyz answers 503, and the time that
  -- main slept with that flag set and the listeners still open is at least the delay of the settings.
  pub drains_before_closing :
      {s : Process} (ping : Option Error) (version : String) (q : Request) (c : Conn)
      (r : Reach m begun s)
      → s.server ≡ closed
      → (ready ping version (some s.drain_flag) q c
          ≡ respond 503 (some (fields_body (("status", "draining") ∷ ("version", version) ∷ []))) c)
        × (leb_ℤ (cfg m).shutdown_drain_delay (pos (told r)) ≡ true)
        × (s.signalled ≡ true)
  unfolding ready
  drains_before_closing {s} ping version q c r shut =
      let i = Reach-Inv m r in
      let flag = i.closed_flag shut in
      (rw flag refl, rw (told-slept r) (i.closed_slept shut), i.flag_signalled flag)

  -- A clean exit follows an orderly stop: if the process exits with status 0, then every request that
  -- it took was answered, the listeners, the database and the client of Redis are closed, and the
  -- flush of the spans was tried, whether it succeeded or failed.
  pub clean_exit :
      {s : Process}
      → Reach m begun s
      → s.phase ≡ exited 0
      → (s.in_flight ≡ 0)
        × (s.server ≡ closed)
        × (s.db_open ≡ false)
        × (s.redis_open ≡ false)
        × Tried s.flush
  clean_exit r e =
      let i = Reach-Inv m r in
      (i.exit_idle e, i.exit_closed e, i.exit_db e, i.exit_redis e, i.exit_flush e)

  -- An exit with status 1 flushes no span, wherever main stands and whatever was traced.
  pub failed_exit_unflushed :
      {s : Process} → Reach m begun s → s.phase ≡ exited 1 → s.flush ≡ not_flushed
  failed_exit_unflushed r e = ground (arith, Reach-Inv m r)

  prepend : {s t u : Process} → Step m s t → Reach m t u → Reach m s u
  prepend st here = next here st
  prepend st (next r last) = next (prepend st r) last

  -- The requests in flight are answered.
  answered :
      (k : ℕ) (s : Process)
      → s.phase ≡ closing
      → s.in_flight ≡ k
      → (t : Process) × Reach m s t × (t.phase ≡ closing) × (t.in_flight ≡ 0)
  answered zero s p e = (s, here, p, e)
  answered (suc n) s p e =
      let (t, r, at, idle) = answered n (record s { in_flight = n }) p refl in
      (t, prepend (answers n (ground arith) e) r, at, idle)

  slept :
      (k : ℕ) (s : Process)
      → s.phase ≡ draining
      → (t : Process) × Reach m s t × (t.phase ≡ draining) × (t.slept ≡ s.slept + k)
  slept zero s p = (s, here, p, omega arith)
  slept (suc k) s p =
      let (t, r, at, e) = slept k (record s { slept = suc s.slept }) p in
      (t, prepend (sleeps p) r, at, omega arith)

  closes : (s : Process) → s.phase ≡ closing → (t : Process) × Reach m s t × (t.phase ≡ exited 0)
  closes s p =
      let (t, r, at, idle) = answered s.in_flight s p refl in (_, next r (stops none at idle), refl)

  joined : {s t u : Process} → Reach m s t → Reach m t u → Reach m s u
  joined r here = r
  joined r (next q st) = next (joined r q) st

  -- A sleep that is as long as the delay.
  naps : ℤ → ℕ
  naps (pos n) = n
  naps (negsuc n) = 0

  slept_enough : (d : ℤ) (k : ℕ) → leb_ℤ d (pos (k + naps d)) ≡ true
  unfolding naps
  slept_enough (pos n) k = ground arith
  slept_enough (negsuc n) k = ground arith

  drained : (s : Process) → s.phase ≡ draining → (t : Process) × Reach m s t × (t.phase ≡ exited 0)
  drained s p =
      let delay = (cfg m).shutdown_drain_delay in
      let (t, r, at, e) = slept (naps delay) s p in
      let shut = shuts_down at (rw e (slept_enough delay s.slept)) in
      let (u, q, gone) = closes (record t { phase = closing; server = closed }) refl in
      (u, joined (next r shut) q, gone)

  -- A process that was told to stop can stop cleanly: from every state in which main serves, drains
  -- or shuts down, and the signal has come, there are steps to an exit with status 0, however many
  -- requests are in flight and whatever the delay.
  pub signalled_stops :
      (s : Process)
      → s.signalled ≡ true
      → is_up s.phase ≡ true
      → (t : Process) × Reach m s t × (t.phase ≡ exited 0)
  signalled_stops s told up = elim (up_cases s.phase up) [
    | inl p ↦
        let (t, r, gone) = drained (record s { phase = draining; drain_flag = true }) refl in
        (t, prepend (drains p told) r, gone)
    | inr (inl p) ↦ drained s p
    | inr (inr p) ↦ closes s p
  ]
