-- ===== src/Seed/Repeats.antt =====
-- Seeding the tasks of a user once and again.
use taskflow_api.Base.{
  ℕ, zero, suc, ◌+◌, ◌%◌, ◌≤◌, ◌<◌, String, ◌≡◌, refl, inl, inr, true, Bool-cases, Option, none,
  some, List, [], ◌∷◌, length, pos, arith,
}
use taskflow_api.Domain.{Task, Int64, Instant}
use taskflow_api.Domain.Errors.{Result, ok, err}
use taskflow_api.Store.{World}
use taskflow_api.Text.{contains}
use taskflow_api.Service.Tasks
use taskflow_api.Service.Tasks.{Page}
use taskflow_api.Server.{Deployment, task_service}
use taskflow_api.Seed.Tasks.{
  SeedTask, task_templates, template_at, Counts, titles_of, created_or_not, seed_task, seed_from,
  per_user, seed_tasks_for_user,
}

abbrev pub sum : Counts → ℕ
sum n = n.created + n.skipped

-- The titles of the templates from the i-th on are among these, so many of them.
unfoldable pub HasTitles : List String → ℕ → ℕ → Type 0
HasTitles titles first left =
    (k : ℕ) (t : SeedTask)
    → k < left
    → template_at ((first + k) % length task_templates) task_templates ≡ some t
    → contains titles t.title ≡ true

module _ (d : Deployment) (add_days : Instant → ℕ → Instant) (user_id : Int64) where
  created_or_not-sum :
      (t : SeedTask) (n : Counts) (p : Result Task × World)
      → sum (created_or_not d add_days user_id t n p).0 ≤ suc (sum n)
  created_or_not-sum t n (ok task, w) = omega arith
  created_or_not-sum t n (err e, w) = omega arith

  seed_task-sum :
      (titles : List String) (o : Option SeedTask) (n : Counts) (w : World)
      → sum (seed_task d add_days user_id titles o n w).0 ≤ suc (sum n)
  seed_task-sum titles none n w = omega arith
  seed_task-sum titles (some t) n w = elim (Bool-cases (contains titles t.title)) [
    | inl old ↦ rw old (omega arith)
    | inr new ↦ rw new (created_or_not-sum t n _)
  ]

  seed_from-sum :
      (offset : ℕ) (titles : List String) (left i : ℕ) (n : Counts) (w : World)
      → sum (seed_from d add_days user_id offset titles left i (n, w)).0 ≤ sum n + left
  unfolding seed_from
  seed_from-sum offset titles zero i n w = omega arith
  seed_from-sum offset titles (suc left) i n w = do
    let o = template_at ((offset + i) % length task_templates) task_templates
    let p = seed_task d add_days user_id titles o n w
    omega (arith, seed_task-sum titles o n w, seed_from-sum offset titles left (suc i) p.0 p.1)

  template_in_range :
      (i : ℕ) (ts : List SeedTask) → i < length ts → (t : SeedTask) × (template_at i ts ≡ some t)
  unfolding template_at
  template_in_range i [] h = absurd (omega arith)
  template_in_range zero (t ∷ ts) h = (t, refl)
  template_in_range (suc i) (t ∷ ts) h = template_in_range i ts (omega arith)

  later :
      (first second left : ℕ) (titles : List String)
      → second ≡ suc first
      → HasTitles titles first (suc left)
      → HasTitles titles second left
  unfolding HasTitles
  later first second left titles e h k t lt found = do
    let same : first + suc k ≡ second + k = omega arith
    h (suc k) t (omega arith) (rw same found)

  seed_from-HasTitles :
      (offset : ℕ) (titles : List String) (left i : ℕ) (n : Counts) (w : World)
      → HasTitles titles (offset + i) left
      → seed_from d add_days user_id offset titles left i (n, w)
        ≡ (record n { skipped = n.skipped + left }, w)
  unfolding seed_from HasTitles
  seed_from-HasTitles offset titles zero i n w h = do
    let e : n.skipped + 0 ≡ n.skipped = omega arith
    rw e refl
  seed_from-HasTitles offset titles (suc left) i n w h = do
    let (t, found) =
        template_in_range ((offset + i) % length task_templates) task_templates (omega arith)
    let first : offset + i + 0 ≡ offset + i = omega arith
    let old = h 0 t (omega arith) (rw first found)
    let more : n.skipped + suc left ≡ suc n.skipped + left = omega arith
    rw (found, old, more)
        (seed_from-HasTitles offset titles left (suc i) (record n { skipped = suc n.skipped }) w
          (later (offset + i) (offset + suc i) left titles (omega arith) h))

  -- Each turn of the loop creates a task, skips one, or warns: seedTasksForUser counts no more than
  -- five tasks, whatever fails.
  pub seed_tasks_for_user-sum :
      (offset : ℕ) (w : World) → sum (seed_tasks_for_user d add_days user_id offset w).0 ≤ per_user
  unfolding seed_tasks_for_user
  seed_tasks_for_user-sum offset w =
      seed_from-sum offset _ 5 0 (record { created = 0; skipped = 0 }) _

  -- Seeding the tasks of a user again changes nothing. If the list of the user's tasks holds the
  -- titles of the five templates from the offset on, then the five are skipped, none is created, and
  -- no statement is sent after the list's.
  pub seed_tasks_for_user_again :
      (offset : ℕ) (w : World) (page : Page)
      → (Tasks.list (task_service d) user_id "" (pos 100) (pos 0) w).0 ≡ ok page
      → HasTitles (titles_of (ok page)) offset per_user
      → seed_tasks_for_user d add_days user_id offset w ≡ (
        record { created = 0; skipped = 5 },
        (Tasks.list (task_service d) user_id "" (pos 100) (pos 0) w).1,
      )
  unfolding seed_tasks_for_user HasTitles
  seed_tasks_for_user_again offset w page listing h = do
    let start : offset + 0 ≡ offset = omega arith
    rw listing (
        seed_from-HasTitles offset (titles_of (ok page)) 5 0 (record { created = 0; skipped = 0 }) _
          (rw start h))
