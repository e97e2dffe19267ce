-- ===== src/Tests/Seeding.antt =====
-- The seed command at a database that was seeded before.
use taskflow_api.Base.{ℕ, zero, suc, String, ◌≡◌, refl, [], ◌∷◌, true, none, some, pos, eq_ℤ, arith}
use taskflow_api.Domain.{User, Task}
use taskflow_api.Sql.{find_row, select_rows}
use taskflow_api.Store.{World}
use taskflow_api.Repository.Tasks.{listed}
use taskflow_api.Text.{contains}
use taskflow_api.Text.Sorting.{sort_strings, insert, str_leb}
use taskflow_api.Config.{settings}
use taskflow_api.Database.Migrations.{migrate, apply_all}
use taskflow_api.Seed.Tasks.{SeedTask, seed_users, template_at}
use taskflow_api.Seed.Repeats.{HasTitles}
use taskflow_api.Seed.Again.{AreSeeded, newest}
use taskflow_api.Seed.Main.{SeedHost, main}
use taskflow_api.Seed.Main.Repeats.{main_again}
use taskflow_api.Tests.Ordering.{by_creation}
use taskflow_api.Tests.Processes.{machine, files, loaded, connected}
use taskflow_api.Tests.Sample.{env, env-IsQuiet, crypto, jwt, stocked, user, task}

abbrev named : ℕ → String → User
named id email = record user { id = pos id; email = email }

abbrev titled : ℕ → ℕ → String → Task
titled id user_id title = record task { id = pos id; user_id = pos user_id; title = title }

-- The three users with the titles of their templates, and one more task.
abbrev again : World
again = record stocked {
  tables = record stocked.tables {
    users =
        named 1 "alice@example.com" ∷ named 2 "bob@example.com" ∷ named 3 "carol@example.com" ∷ [];
    tasks =
        titled 1 1 "Set up CI pipeline"
        ∷ titled 2 1 "Write API documentation"
        ∷ titled 3 1 "Add refresh token rotation"
        ∷ titled 4 1 "Review pull request #42"
        ∷ titled 5 1 "Fix flaky integration test"
        ∷ titled 6 2 "Write API documentation"
        ∷ titled 7 2 "Add refresh token rotation"
        ∷ titled 8 2 "Review pull request #42"
        ∷ titled 9 2 "Fix flaky integration test"
        ∷ titled 10 2 "Plan Q3 roadmap"
        ∷ titled 11 3 "Add refresh token rotation"
        ∷ titled 12 3 "Review pull request #42"
        ∷ titled 13 3 "Fix flaky integration test"
        ∷ titled 14 3 "Plan Q3 roadmap"
        ∷ titled 15 3 "Upgrade Postgres to v16"
        ∷ titled 16 1 "Buy milk"
        ∷ [];
    next_user = 4;
    next_task = 17;
  };
}

-- The machine of the runs of the process, whose migrations change nothing here.
abbrev seed_host : SeedHost
seed_host = record {
  host = machine.host;
  driver = machine.driver;
  files = files;
  exec = λ text w. (none, w);
  env = env;
  crypto = crypto;
  jwt = jwt;
  add_days = λ now n. now;
}

shown :
    (id n : ℕ) (t u : SeedTask)
    → some t ≡ some u
    → contains (newest env (pos id) again.tables.tasks n) t.title ≡ true
    → contains (newest env (pos id) again.tables.tasks n) u.title ≡ true
shown id n t u e h = cc (e, h)

alice_kept : (n : ℕ) → HasTitles (newest env (pos 1) again.tables.tasks n) 0 5
unfolding HasTitles template_at contains select_rows listed eq_ℤ by_creation
alice_kept n zero t lt e = shown 1 n _ t e refl
alice_kept n (suc zero) t lt e = shown 1 n _ t e refl
alice_kept n (suc (suc zero)) t lt e = shown 1 n _ t e refl
alice_kept n (suc (suc (suc zero))) t lt e = shown 1 n _ t e refl
alice_kept n (suc (suc (suc (suc zero)))) t lt e = shown 1 n _ t e refl
alice_kept n (suc (suc (suc (suc (suc k))))) t lt e = absurd (omega arith)

bob_kept : (n : ℕ) → HasTitles (newest env (pos 2) again.tables.tasks n) 1 5
unfolding HasTitles template_at contains select_rows listed eq_ℤ by_creation
bob_kept n zero t lt e = shown 2 n _ t e refl
bob_kept n (suc zero) t lt e = shown 2 n _ t e refl
bob_kept n (suc (suc zero)) t lt e = shown 2 n _ t e refl
bob_kept n (suc (suc (suc zero))) t lt e = shown 2 n _ t e refl
bob_kept n (suc (suc (suc (suc zero)))) t lt e = shown 2 n _ t e refl
bob_kept n (suc (suc (suc (suc (suc k))))) t lt e = absurd (omega arith)

carol_kept : (n : ℕ) → HasTitles (newest env (pos 3) again.tables.tasks n) 2 5
unfolding HasTitles template_at contains select_rows listed eq_ℤ by_creation
carol_kept n zero t lt e = shown 3 n _ t e refl
carol_kept n (suc zero) t lt e = shown 3 n _ t e refl
carol_kept n (suc (suc zero)) t lt e = shown 3 n _ t e refl
carol_kept n (suc (suc (suc zero))) t lt e = shown 3 n _ t e refl
carol_kept n (suc (suc (suc (suc zero)))) t lt e = shown 3 n _ t e refl
carol_kept n (suc (suc (suc (suc (suc k))))) t lt e = absurd (omega arith)

again-AreSeeded : AreSeeded env seed_users 0 again.tables.users again.tables.tasks
unfolding AreSeeded find_row
again-AreSeeded = (
  (named 1 "alice@example.com", refl, alice_kept),
  (
    (named 2 "bob@example.com", refl, bob_kept),
    ((named 3 "carol@example.com", refl, carol_kept), tt),
  ),
)

main_again_example :
    let p = main seed_host again in
    (p.0 ≡ 0)
    × (p.1.tables.users ≡ again.tables.users)
    × (p.1.tables.tasks ≡ again.tables.tasks)
    × (p.1.tables.refresh_tokens ≡ again.tables.refresh_tokens)
unfolding migrate apply_all sort_strings insert str_leb
main_again_example =
    main_again seed_host (settings machine.host) again again loaded connected refl env-IsQuiet
      (λ n. ("password123", refl)) again-AreSeeded
