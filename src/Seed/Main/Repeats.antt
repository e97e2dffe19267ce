-- ===== src/Seed/Main/Repeats.antt =====
-- Running main of cmd/seed/main.go again.
use taskflow_api.Base.{◌≡◌, refl, ap, List, inl, none}
use taskflow_api.Config.{Config, load}
use taskflow_api.Database.{connect}
use taskflow_api.Database.Migrations.{migrate}
use taskflow_api.Domain.{User}
use taskflow_api.Domain.Errors.{Result, ok}
use taskflow_api.Store.{World}
use taskflow_api.Store.Quiet.{IsQuiet}
use taskflow_api.Process.Wiring.{deployment}
use taskflow_api.Seed.Tasks.{seed_users, seed_all, Counts}
use taskflow_api.Seed.Again.{AreSeeded, IsHashable, seed_all_again}
use taskflow_api.Seed.Main.{SeedHost, main, seeded_all}

finished :
    (h : SeedHost) (p : Result (List (User × Counts)) × World) (lines : List (User × Counts))
    → p.0 ≡ ok lines
    → seeded_all h p ≡ (0, p.1)
finished h p lines fine = ap (λ r. seeded_all h (r, p.1)) fine

-- Running the seed command again changes no user, task or token. If the settings are valid, the
-- database answers and is migrated, every statement succeeds, the command is the database's only
-- client, bcrypt hashes the one password of the list, password123, and each of the three users is there with the titles of its
-- five templates among its newest hundred tasks, then the command exits with status 0 and leaves the
-- users, tasks and tokens as they were after the migrations.
pub main_again :
    (h : SeedHost) (cfg : Config) (w v : World)
    → load h.host ≡ inl cfg
    → connect h.driver ≡ ok tt
    → migrate h.exec h.files w ≡ (none, v)
    → IsQuiet h.env
    → IsHashable h.crypto "password123"
    → AreSeeded h.env seed_users 0 v.tables.users v.tables.tasks
    → ((main h w).0 ≡ 0)
      × ((main h w).1.tables.users ≡ v.tables.users)
      × ((main h w).1.tables.tasks ≡ v.tables.tasks)
      × ((main h w).1.tables.refresh_tokens ≡ v.tables.refresh_tokens)
unfolding main
main_again h cfg w v loaded connected migrated q hashable seeded = do
  let d = deployment h.env h.crypto h.jwt cfg
  let p = seed_all d h.add_days seed_users 0 v
  let (lines, fine, counts, users, tasks, tokens) =
      seed_all_again d h.add_days seed_users 0 v q (hashable, (hashable, (hashable, tt))) seeded
  rw (loaded, connected, migrated, finished h p lines fine) (refl, users, tasks, tokens)
