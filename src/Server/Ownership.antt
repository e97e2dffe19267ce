-- ===== src/Server/Ownership.antt =====
-- Ownership, as task_service.go enforces it.
use taskflow_api.Base.{
  suc, String, ◌≡◌, sym, ap, ◌∙◌, ◌≢◌, false, Option, none, some, List, arith, if◌then◌else◌, eq_ℤ,
  eq_ℤ_iff,
}
use taskflow_api.Domain.{Task, Instant, Int64, TaskStatus, done}
use taskflow_api.Domain.Errors.{not_found, forbidden, Error, sentinel, is_no_rows, ok, err}
use taskflow_api.Sql.{find_row}
use taskflow_api.Store.{works, World, ◌>>=◌, map_err}
use taskflow_api.Store.Outcomes.{met, exec_works, bind-ok, check-ok}
use taskflow_api.Repository.Tasks.{select_task, find_by_id}
use taskflow_api.Service.Tasks
use taskflow_api.Service.Tasks.{TaskService}
use taskflow_api.Server.{Deployment, task_service}

abbrev pub task_of : Int64 → List Task → Option Task
task_of id = find_row (λ k. eq_ℤ k.id id)

-- Whatever the repository answers, a task that Get returns belongs to the user who asked.
pub get-owner :
    (s : TaskService) (user_id task_id : Int64) (w : World) (k : Task)
    → (Tasks.get s user_id task_id w).0 ≡ ok k
    → k.user_id ≡ user_id
unfolding Tasks.get
get-owner s user_id task_id w k h =
    let (found, done, same) = bind-ok _ _ w k h in
    let (own, same_task) =
      check-ok (eq_ℤ found.user_id user_id) (sentinel forbidden) found k _
        (ap (λ p. p.0) (sym same) ∙ h) in
    ap (λ (t : Task). t.user_id) (sym same_task) ∙ (eq_ℤ_iff found.user_id user_id).0 own

-- The world after the lookup of a task.
abbrev pub after_lookup : Deployment → World → World
after_lookup d w = record { tables = met d.env w; step = suc w.step }

pub get_works :
    (d : Deployment) (user_id task_id : Int64) (w : World) (k : Task)
    → d.env.fault w.step ≡ works
    → task_of task_id (met d.env w).tasks ≡ some k
    → Tasks.get (task_service d) user_id task_id w
      ≡ ((if eq_ℤ k.user_id user_id then ok k else err (sentinel forbidden)), after_lookup d w)
unfolding Tasks.get find_by_id select_task map_err ◌>>=◌
get_works d user_id task_id w k h found =
    rw (exec_works d.env (select_task task_id) w h, found) (ground arith)

-- A service whose lookup fails does no more.
get_refuses :
    (d : Deployment) (user_id task_id : Int64) (title description : String) (status : TaskStatus)
    (due_date : Option Instant) (w v : World) (e : Error)
    → Tasks.get (task_service d) user_id task_id w ≡ (err e, v)
    → (Tasks.update (task_service d) user_id task_id title description status due_date w
        ≡ (err e, v))
      × (Tasks.delete (task_service d) user_id task_id w ≡ (err e, v))
unfolding Tasks.update Tasks.delete ◌>>=◌
get_refuses d user_id task_id title description status due_date w v e h = (rw h, rw h)

-- A task of another user is out of reach: if the lookup works and finds it, then Get, Update and
-- Delete answer ErrForbidden, and change no table.
pub foreign_task_forbidden :
    (d : Deployment) (user_id task_id : Int64) (title description : String) (status : TaskStatus)
    (due_date : Option Instant) (w : World) (k : Task)
    → d.env.fault w.step ≡ works
    → task_of task_id (met d.env w).tasks ≡ some k
    → k.user_id ≢ user_id
    → (Tasks.get (task_service d) user_id task_id w ≡ (err (sentinel forbidden), after_lookup d w))
      × (Tasks.update (task_service d) user_id task_id title description status due_date w
          ≡ (err (sentinel forbidden), after_lookup d w))
      × (Tasks.delete (task_service d) user_id task_id w
          ≡ (err (sentinel forbidden), after_lookup d w))
foreign_task_forbidden d user_id task_id title description status due_date w k h found foreign =
    let refused : eq_ℤ k.user_id user_id ≡ false = ground (arith, eq_ℤ_iff k.user_id user_id) in
    let got = get_works d user_id task_id w k h found ∙ rw refused in
    let (updated, deleted) =
      get_refuses d user_id task_id title description status due_date w (after_lookup d w)
        (sentinel forbidden) got in
    (got, updated, deleted)

get_missing :
    (d : Deployment) (user_id task_id : Int64) (w : World)
    → d.env.fault w.step ≡ works
    → task_of task_id (met d.env w).tasks ≡ none
    → Tasks.get (task_service d) user_id task_id w ≡ (err (sentinel not_found), after_lookup d w)
unfolding Tasks.get find_by_id select_task map_err ◌>>=◌ is_no_rows
get_missing d user_id task_id w h missing = rw (exec_works d.env (select_task task_id) w h, missing)

-- A task that is not there: if the lookup works, then Get, Update and Delete answer ErrNotFound,
-- and change no table.
pub missing_task_not_found :
    (d : Deployment) (user_id task_id : Int64) (title description : String) (status : TaskStatus)
    (due_date : Option Instant) (w : World)
    → d.env.fault w.step ≡ works
    → task_of task_id (met d.env w).tasks ≡ none
    → (Tasks.get (task_service d) user_id task_id w ≡ (err (sentinel not_found), after_lookup d w))
      × (Tasks.update (task_service d) user_id task_id title description status due_date w
          ≡ (err (sentinel not_found), after_lookup d w))
      × (Tasks.delete (task_service d) user_id task_id w
          ≡ (err (sentinel not_found), after_lookup d w))
missing_task_not_found d user_id task_id title description status due_date w h missing =
    let got = get_missing d user_id task_id w h missing in
    let (updated, deleted) =
      get_refuses d user_id task_id title description status due_date w (after_lookup d w)
        (sentinel not_found) got in
    (got, updated, deleted)
