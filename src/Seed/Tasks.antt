-- ===== src/Seed/Tasks.antt =====
-- cmd/seed/main.go: the tasks of a seeded user, and the loop over the users.
use taskflow_api.Base.{
  ℕ, zero, suc, ◌+◌, ◌%◌, String, Option, none, some, List, [], ◌∷◌, map, str_eq, not,
  if◌then◌else◌, pos, length,
}
use taskflow_api.Domain.{User, Task, Int64, Instant, TaskStatus, pending, in_progress, done}
use taskflow_api.Domain.Errors.{Result, ok, err}
use taskflow_api.Store.{World, Io, time_now}
use taskflow_api.Text.{contains}
use taskflow_api.Service.Tasks
use taskflow_api.Service.Tasks.{Page}
use taskflow_api.Server.{Deployment, task_service}
use taskflow_api.Seed.{get_or_create_user}

pub record SeedUser : Type 0 where
  pub email : String
  pub password : String

abbrev seed_user : String → SeedUser
seed_user email = record { email = email; password = "password123" }

abbrev pub seed_users : List SeedUser
seed_users =
    seed_user "alice@example.com" ∷ seed_user "bob@example.com" ∷ seed_user "carol@example.com" ∷ []

pub record SeedTask : Type 0 where
  pub title : String
  pub description : String
  pub status : TaskStatus
  pub due_in_days : Option ℕ

abbrev template : String → String → TaskStatus → Option ℕ → SeedTask
template title description status due_in_days = record {
  title = title;
  description = description;
  status = status;
  due_in_days = due_in_days;
}

abbrev pub task_templates : List SeedTask
task_templates =
    template "Set up CI pipeline" "Configure GitHub Actions for lint/test/build" done none
    ∷ template "Write API documentation" "Document all endpoints in the OpenAPI spec" done none
    ∷ template "Add refresh token rotation" "Implement OAuth2-style rotation with reuse detection"
        in_progress (some 2)
    ∷ template "Review pull request #42" "Review the distributed tracing PR" pending (some 1)
    ∷ template "Fix flaky integration test"
        "TestTaskRepository_ListByUser occasionally times out under load" pending (some 5)
    ∷ template "Plan Q3 roadmap" "Draft the roadmap doc for next quarter" pending (some 14)
    ∷ template "Upgrade Postgres to v16" "Test compatibility and plan a migration window"
        in_progress (some 7)
    ∷ template "Onboard new team member" "Walk through architecture and local dev setup" done none
    ∷ template "Investigate 500s on /api/v1/tasks" "Spiked briefly during last night's deploy" done
        none
    ∷ template "Buy birthday gift" "Something not work-related, for once" pending (some 3)
    ∷ []

-- `taskTemplates[i]`
unfoldable pub template_at : ℕ → List SeedTask → Option SeedTask
template_at i [] = none
template_at zero (t ∷ ts) = some t
template_at (suc i) (t ∷ ts) = template_at i ts

-- How many tasks were created and skipped.
pub record Counts : Type 0 where
  pub created : ℕ
  pub skipped : ℕ

abbrev pub titles_of : Result Page → List String
titles_of (ok page) = map (λ t. t.title) page.tasks
titles_of (err e) = []

abbrev pub per_user : ℕ
per_user = 5

module _ (d : Deployment) (add_days : Instant → ℕ → Instant) where
  -- The due date of a task, from the clock, which is read if there is one.
  abbrev due_after : ℕ → Result Instant × World → Option Instant × World
  due_after n (ok now, w) = (some (add_days now n), w)
  due_after n (err e, w) = (none, w)

  abbrev pub due_date : Option ℕ → World → Option Instant × World
  due_date none w = (none, w)
  due_date (some n) w = due_after n (time_now d.env w)

  -- The status of a task that was created, whose update may fail.
  abbrev set_status : Int64 → SeedTask → Task → World → World
  set_status user_id t task w =
      if not (str_eq t.status pending)
      then (Tasks.update (task_service d) user_id task.id task.title task.description t.status
          task.due_date w).1
      else w

  abbrev pub created_or_not : Int64 → SeedTask → Counts → Result Task × World → Counts × World
  created_or_not user_id t n (ok task, w) =
      (record n { created = suc n.created }, set_status user_id t task w)
  created_or_not user_id t n (err e, w) = (n, w)

  abbrev pub create_with : Int64 → SeedTask → Counts → Option Instant × World → Counts × World
  create_with user_id t n (due, w) =
      created_or_not user_id t n (Tasks.create (task_service d) user_id t.title t.description due w)

  -- One turn of the loop, with the titles that the user has.
  abbrev pub seed_task : Int64 → List String → Option SeedTask → Counts → World → Counts × World
  seed_task user_id titles none n w = (n, w)
  seed_task user_id titles (some t) n w =
      if contains titles t.title
      then (record n { skipped = suc n.skipped }, w)
      else create_with user_id t n (due_date t.due_in_days w)

  -- The loop, with so many turns left, from the i-th on.
  unfoldable pub seed_from : Int64 → ℕ → List String → ℕ → ℕ → Counts × World → Counts × World
  seed_from user_id offset titles zero i (n, w) = (n, w)
  seed_from user_id offset titles (suc left) i (n, w) =
      seed_from user_id offset titles left (suc i) (
        seed_task user_id titles (template_at ((offset + i) % length task_templates) task_templates)
          n w)

  -- `seedTasksForUser`
  unfoldable pub seed_tasks_for_user : Int64 → ℕ → World → Counts × World
  seed_tasks_for_user user_id offset w =
      let (existing, w') = Tasks.list (task_service d) user_id "" (pos 100) (pos 0) w in
      seed_from user_id offset (titles_of existing) per_user 0
        (record { created = 0; skipped = 0 }, w')

  abbrev pub listed :
      User × Counts → Result (List (User × Counts)) × World → Result (List (User × Counts)) × World
  listed line (ok lines, w) = (ok (line ∷ lines), w)
  listed line (err e, w) = (err e, w)

  -- The lines that are logged, or the error that ends the command.
  abbrev pub seeded :
      Result User × World
      → ℕ
      → (World → Result (List (User × Counts)) × World)
      → Result (List (User × Counts)) × World
  seeded (err e, w) i rest = (err e, w)
  seeded (ok user, w) i rest =
      let (n, w') = seed_tasks_for_user user.id i w in listed (user, n) (rest w')

  -- The loop over the users, from the i-th on.
  unfoldable pub seed_all : List SeedUser → ℕ → Io (List (User × Counts))
  seed_all [] i w = (ok [], w)
  seed_all (u ∷ us) i w = seeded (get_or_create_user d u.email u.password w) i (seed_all us (suc i))
