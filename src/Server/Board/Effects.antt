-- ===== src/Server/Board/Effects.antt =====
-- What single calls of the services leave of the tasks, on the abstract view.
use taskflow_api.Base.{
  String, ◌≡◌, refl, ◌∙◌, false, inl, inr, Option, none, some, Option-cases, eq_ℤ, eq_ℤ_iff, arith,
  ap,
}
use taskflow_api.Domain.{Task, Instant, Int64, TaskStatus}
use taskflow_api.Domain.Errors.{Result}
use taskflow_api.Store.{Tables, World, ◌>>=◌, map_err}
use taskflow_api.Store.Quiet.{IsQuiet, exec_quiet}
use taskflow_api.Store.Respects.{IsPreorder}
use taskflow_api.Repository.Allows.{AllowsAccounts}
use taskflow_api.Repository.Users.{insert_user}
use taskflow_api.Repository.RefreshTokens.{insert_token, revoke_where}
use taskflow_api.Repository.Tasks.{insert_task}
use taskflow_api.Repository.Tasks as Rows
use taskflow_api.Repository.Tasks.{select_task}
use taskflow_api.Service.Tasks
use taskflow_api.Server.{Deployment, task_service}
use taskflow_api.Server.Ownership.{
  task_of, after_lookup, missing_task_not_found, foreign_task_forbidden,
}
use taskflow_api.Server.Board.{Board, board, SameTasks, IsForeign}

-- The tasks of two tables are the same rows.
abbrev pub KeepsTasks : Tables → Tables → Type 0
KeepsTasks t u = u.tasks ≡ t.tasks

pub KeepsTasks-IsPreorder : IsPreorder KeepsTasks
KeepsTasks-IsPreorder = record { reflexive = λ t. refl; transitive = λ t u v e f. f ∙ e }

module _ (d : Deployment) (q : IsQuiet d.env) where
  -- No statement on users and tokens touches the tasks.
  pub KeepsTasks-AllowsAccounts : AllowsAccounts d.env KeepsTasks
  unfolding insert_user insert_token revoke_where
  KeepsTasks-AllowsAccounts = record {
    order = KeepsTasks-IsPreorder;
    rely = λ n t. rw (q.alone n t) refl;
    insert_user = λ email hash now t. ground arith;
    insert_token = λ k now t. ground arith;
    revoke_where = λ where_ now t. refl;
  }

  pub same :
      (w : World) (v : World)
      → v.tables.tasks ≡ w.tables.tasks
      → SameTasks (board w.tables) (board v.tables)
  same w v e j = ap (task_of j) e

  -- An action that ends in the world after a lookup.
  after_lookup-same :
      {A : Type 0} (w : World) (p : Result A × World) (r : Result A)
      → p ≡ (r, after_lookup d w)
      → SameTasks (board w.tables) (board p.1.tables)
  after_lookup-same {A} w p r e j =
      ap (λ (x : Result A × World). task_of j x.1.tables.tasks) e
      ∙ ap (λ (t : Tables). task_of j t.tasks) (q.alone w.step w.tables)

  pub get-same :
      (user_id id : Int64) (w : World)
      → SameTasks (board w.tables) (board (Tasks.get (task_service d) user_id id w).1.tables)
  unfolding Tasks.get Rows.find_by_id select_task map_err ◌>>=◌
  get-same user_id id w j = elim (Option-cases (task_of id w.tables.tasks)) [
    | inl missing ↦ rw (exec_quiet d.env q, missing) refl
    | inr (k, found) ↦ rw (exec_quiet d.env q, found) (ground arith)
  ]

  pub create_unknown :
      (user_id : Int64) (title description : String) (due : Option Instant) (w : World)
      → (board w.tables).knows user_id ≡ false
      → (Tasks.create (task_service d) user_id title description due w).1.tables.tasks
        ≡ w.tables.tasks
  unfolding Tasks.create Rows.create map_err ◌>>=◌ insert_task
  create_unknown user_id title description due w unknown = rw (exec_quiet d.env q, unknown) refl

  pub not_owner :
      (b : Board) (user_id id : Int64) (k : Task)
      → b.task id ≡ some k
      → eq_ℤ k.user_id user_id ≡ false
      → IsForeign b user_id id
  not_owner b user_id id k found foreign x at own =
      absurd (cc (foreign, found, at, (eq_ℤ_iff x.user_id user_id).1 own))

  pub no_row : (b : Board) (user_id id : Int64) → b.task id ≡ none → IsForeign b user_id id
  no_row b user_id id missing x at = absurd (cc (missing, at))

  -- A call for a task that the user does not have changes no task.
  pub refused_same :
      (user_id id : Int64) (title description : String) (status : TaskStatus) (due : Option Instant)
      (w : World) (k : Task)
      → task_of id w.tables.tasks ≡ some k
      → eq_ℤ k.user_id user_id ≡ false
      → SameTasks
          (board w.tables)
          (board (Tasks.update (task_service d) user_id id title description status due w).1.tables)
        × SameTasks (board w.tables) (board (Tasks.delete (task_service d) user_id id w).1.tables)
  refused_same user_id id title description status due w k found foreign =
      let (_, up, down) =
        foreign_task_forbidden d user_id id title description status due w k (q.working w.step)
          (rw (q.alone w.step w.tables) found)
          (not_owner (board w.tables) user_id id k found foreign k found) in
      (after_lookup-same w _ _ up, after_lookup-same w _ _ down)

  pub absent_same :
      (user_id id : Int64) (title description : String) (status : TaskStatus) (due : Option Instant)
      (w : World)
      → task_of id w.tables.tasks ≡ none
      → SameTasks
          (board w.tables)
          (board (Tasks.update (task_service d) user_id id title description status due w).1.tables)
        × SameTasks (board w.tables) (board (Tasks.delete (task_service d) user_id id w).1.tables)
  absent_same user_id id title description status due w missing =
      let (_, up, down) =
        missing_task_not_found d user_id id title description status due w (q.working w.step)
          (rw (q.alone w.step w.tables) missing) in
      (after_lookup-same w _ _ up, after_lookup-same w _ _ down)
