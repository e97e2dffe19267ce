-- ===== src/Seed/Main.antt =====
-- cmd/seed/main.go: main, from the settings to the last user.
pub mod Repeats
use taskflow_api.Base.{ℕ, String, ◌⊎◌, inl, inr, Option, none, some, List}
use taskflow_api.Config.{Config, Host, load}
use taskflow_api.Database.{Driver, connect}
use taskflow_api.Database.Migrations.{Files, migrate}
use taskflow_api.Domain.{User, Instant}
use taskflow_api.Domain.Errors.{Error, Result, ok, err}
use taskflow_api.Store.{Env, World}
use taskflow_api.Service.Tokens.{Jwt}
use taskflow_api.Service.RefreshTokens.{Crypto}
use taskflow_api.Process.Wiring.{deployment}
use taskflow_api.Seed.Tasks.{seed_users, Counts, seed_all}

-- What the command runs on: the host, the driver, the files of the migrations and how the database
-- executes one, the libraries of the services, and `AddDate(0, 0, n)`.
pub record SeedHost : Type 0 where
  pub host : Host
  pub driver : Driver
  pub files : Files
  pub exec : String → World → Option Error × World
  pub env : Env
  pub crypto : Crypto
  pub jwt : Jwt
  pub add_days : Instant → ℕ → Instant

module _ (h : SeedHost) where
  -- The status of the exit, after the loop.
  abbrev pub seeded_all : Result (List (User × Counts)) × World → ℕ × World
  seeded_all (ok lines, w) = (0, w)
  seeded_all (err e, w) = (1, w)

  abbrev migrated : Config → Option Error × World → ℕ × World
  migrated cfg (some e, w) = (1, w)
  migrated cfg (none, w) =
      seeded_all (seed_all (deployment h.env h.crypto h.jwt cfg) h.add_days seed_users 0 w)

  abbrev connected : Config → Result (Unit {0}) → World → ℕ × World
  connected cfg (err e) w = (1, w)
  connected cfg (ok _) w = migrated cfg (migrate h.exec h.files w)

  abbrev configured : Config ⊎ List String → World → ℕ × World
  configured (inr errs) w = (1, w)
  configured (inl cfg) w = connected cfg (connect h.driver) w

  -- `main`, to the status of its exit.
  unfoldable pub main : World → ℕ × World
  main w = configured (load h.host) w
