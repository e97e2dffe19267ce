-- ===== src/Seed/Again.antt =====
-- Running the whole loop of cmd/seed/main.go again.
use taskflow_api.Base.{ℕ, suc, String, ◌≡◌, refl, ap, ◌∙◌, some, List, [], ◌∷◌, map, take, pos, All}
use taskflow_api.Domain.{User, Task, RefreshToken, Int64, Instant}
use taskflow_api.Domain.Errors.{Result, ok, err}
use taskflow_api.Store.{World, Env}
use taskflow_api.Store.Quiet.{IsQuiet}
use taskflow_api.Sql.{select_rows}
use taskflow_api.Repository.Tasks.{listed}
use taskflow_api.Repository.Evolution.{user_of}
use taskflow_api.Service.Tasks.{Page, effective_limit, effective_offset}
use taskflow_api.Server.{Deployment}
use taskflow_api.Server.Pages.{list_quiet, page_of}
use taskflow_api.Service.RefreshTokens.{Crypto}
use taskflow_api.Seed.{get_or_create_user}
use taskflow_api.Seed.Accounts.{get_or_create_user-found}
use taskflow_api.Seed.Tasks as seeding
use taskflow_api.Seed.Tasks.{SeedUser, Counts, per_user, seed_tasks_for_user, seed_all}
use taskflow_api.Seed.Repeats.{HasTitles, seed_tasks_for_user_again}

-- The titles of the newest hundred tasks of a user, as the n-th statement orders them.
abbrev pub newest : Env → Int64 → List Task → ℕ → List String
newest env user_id ks n =
    map (λ t. t.title) (take 100 (env.order n (select_rows (listed user_id "") ks)))

-- The users from the i-th on are there, each with the titles of its five templates among its newest
-- hundred tasks.
unfoldable pub AreSeeded : Env → List SeedUser → ℕ → List User → List Task → Type 0
AreSeeded env [] i us ks = Unit
AreSeeded env (s ∷ ss) i us ks =
    ((u : User) × (user_of s.email us ≡ some u)
      × ((n : ℕ) → HasTitles (newest env u.id ks n) i per_user))
    × AreSeeded env ss (suc i) us ks

-- bcrypt hashes this password, with every salt.
abbrev pub IsHashable : Crypto → String → Type 0
IsHashable crypto password =
    (n : ℕ) → (hash : String) × (crypto.generate_from_password n password ≡ ok hash)

abbrev pub all_skipped : Counts
all_skipped = record { created = 0; skipped = 5 }

module _ (d : Deployment) (add_days : Instant → ℕ → Instant) (q : IsQuiet d.env) where
  again-tasks :
      (u : User) (i : ℕ) (w : World)
      → ((n : ℕ) → HasTitles (newest d.env u.id w.tables.tasks n) i per_user)
      → seed_tasks_for_user d add_days u.id i w
        ≡ (all_skipped, record { tables = w.tables; step = suc (suc w.step) })
  unfolding effective_limit effective_offset
  again-tasks u i w h = do
    let page = page_of d.env u.id "" (pos 100) (pos 0) w
    let e = list_quiet d u.id "" (pos 100) (pos 0) w q
    let done =
        seed_tasks_for_user_again d add_days u.id i w page (ap (λ (p : Result Page × World). p.0) e)
          (h (suc w.step))
    done ∙ ap (λ (p : Result Page × World). (all_skipped, p.1)) e

  -- How the loop ends from these users, tasks and tokens on.
  unfoldable Lines :
      List SeedUser
      → List User
      → List Task
      → List RefreshToken
      → Result (List (User × Counts)) × World
      → Type 0
  Lines ss us ks ts p =
      (lines : List (User × Counts)) × (p.0 ≡ ok lines)
      × (map (λ l. l.1) lines ≡ map (λ s. all_skipped) ss)
      × (p.1.tables.users ≡ us)
      × (p.1.tables.tasks ≡ ks)
      × (p.1.tables.refresh_tokens ≡ ts)

  listed-Lines :
      (u : User) (s : SeedUser) (ss : List SeedUser) (us : List User) (ks : List Task)
      (ts : List RefreshToken) (p : Result (List (User × Counts)) × World)
      → Lines ss us ks ts p
      → Lines (s ∷ ss) us ks ts (seeding.listed d add_days (u, all_skipped) p)
  unfolding Lines
  listed-Lines u s ss us ks ts (ok ls, w) (lines, fine, counts, users, tasks, tokens) = (
    (u, all_skipped) ∷ lines,
    cc fine,
    ap (λ rest. all_skipped ∷ rest) counts,
    users,
    tasks,
    tokens,
  )
  listed-Lines u s ss us ks ts (err e, w) (lines, fine, _, _, _, _) = absurd (cc fine)

  seeded-found :
      (p : Result User × World) (u : User) (i : ℕ)
      (rest : World → Result (List (User × Counts)) × World)
      → p.0 ≡ ok u
      → seeding.seeded d add_days p i rest ≡ seeding.seeded d add_days (ok u, p.1) i rest
  seeded-found p u i rest e = ap (λ r. seeding.seeded d add_days (r, p.1) i rest) e

  seed_all-Lines :
      (ss : List SeedUser) (i : ℕ) (w : World)
      → All (λ s. IsHashable d.crypto s.password) ss
      → AreSeeded d.env ss i w.tables.users w.tables.tasks
      → Lines ss w.tables.users w.tables.tasks w.tables.refresh_tokens (seed_all d add_days ss i w)
  unfolding seed_all AreSeeded Lines
  seed_all-Lines [] i w hashes done = ([], refl, refl, refl, refl, refl)
  seed_all-Lines (s ∷ ss) i w (hashable, hashes) ((u, found, titles), rest) = do
    let (hash, hashed) = hashable w.step
    let (fine, users, tasks, tokens) =
        get_or_create_user-found d s.email s.password hash w u q hashed found
    let p = get_or_create_user d s.email s.password w
    let w' : World = record { tables = p.1.tables; step = suc (suc p.1.step) }
    let (lines, done, counts, users', tasks', tokens') =
        seed_all-Lines ss (suc i) w' hashes (rw (users, tasks) rest)
    rw
        (
          seeded-found p u i (seed_all d add_days ss (suc i)) fine,
          again-tasks u i p.1 (λ n. rw tasks (titles n)),
        )
        (listed-Lines u s ss w.tables.users w.tables.tasks w.tables.refresh_tokens
          (seed_all d add_days ss (suc i) w')
          (lines, done, counts, users' ∙ users, tasks' ∙ tasks, tokens' ∙ tokens))

-- Seeding again changes no table. If every statement succeeds, the process is the database's only
-- client, bcrypt hashes the passwords of the list, and every user of the list is there with the titles of its
-- five templates among its newest hundred tasks, then the loop of main ends without an error: every
-- user gets a line that counts no created task and five skipped ones, and the users, tasks and
-- tokens stay as they were.
pub seed_all_again :
    (d : Deployment) (add_days : Instant → ℕ → Instant) (ss : List SeedUser) (i : ℕ) (w : World)
    → IsQuiet d.env
    → All (λ s. IsHashable d.crypto s.password) ss
    → AreSeeded d.env ss i w.tables.users w.tables.tasks
    → (lines : List (User × Counts)) × ((seed_all d add_days ss i w).0 ≡ ok lines)
      × (map (λ l. l.1) lines ≡ map (λ s. all_skipped) ss)
      × ((seed_all d add_days ss i w).1.tables.users ≡ w.tables.users)
      × ((seed_all d add_days ss i w).1.tables.tasks ≡ w.tables.tasks)
      × ((seed_all d add_days ss i w).1.tables.refresh_tokens ≡ w.tables.refresh_tokens)
unfolding Lines
seed_all_again d add_days ss i w q hashes seeded = seed_all-Lines d add_days q ss i w hashes seeded
