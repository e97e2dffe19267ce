-- ===== src/Server/TaskMap.antt =====
-- The tasks as a map from ids to tasks, which TaskService.Update and Delete change at one
-- point, when one client has the database to itself.
use taskflow_api.Base.{
  suc, String, ◌≡◌, refl, ap, ◌∙◌, true, false, Option, none, some, arith, if◌then◌else◌, eq_ℤ,
  eq_ℤ_iff,
}
use taskflow_api.Domain.{Task, Instant, Int64, TaskStatus, valid}
use taskflow_api.Domain.Errors.{validation, Error, is, ok, err}
use taskflow_api.Sql.{delete_rows, update_rows}
use taskflow_api.Store.{World, ◌>>=◌, map_err}
use mathlib.Core.Option
use taskflow_api.Sql.Ids.{find_row-id, find_row-update_id, find_row-delete_id}
use taskflow_api.Sql.Rows.{count_rows-zero_iff}
use taskflow_api.Store.Quiet.{IsQuiet, exec_quiet, rows_affected_quiet}
use taskflow_api.Repository.Tasks.{insert_task, update_task, set_task, delete_task}
use taskflow_api.Repository.Tasks as Rows
use taskflow_api.Service.Tasks
use taskflow_api.Server.{Deployment, task_service}
use taskflow_api.Server.Ownership.{task_of, get_works}

-- What an UPDATE of a task stores.
abbrev pub edited : Task → String → String → TaskStatus → Option Instant → Instant → Task
edited k title description status due_date now = record k {
  title = title;
  description = description;
  status = status;
  due_date = due_date;
  updated_at = now;
}

module _ (d : Deployment) (q : IsQuiet d.env) where
  get_quiet :
      (user_id task_id : Int64) (w : World) (k : Task)
      → task_of task_id w.tables.tasks ≡ some k
      → k.user_id ≡ user_id
      → Tasks.get (task_service d) user_id task_id w
        ≡ (ok k, record { tables = w.tables; step = suc w.step })
  get_quiet user_id task_id w k found own =
      get_works d user_id task_id w k (q.working w.step) (rw (q.alone w.step w.tables) found)
      ∙ rw (q.alone w.step w.tables, (eq_ℤ_iff k.user_id user_id).1 own)

  row_update_quiet :
      (k old : Task) (w : World)
      → task_of k.id w.tables.tasks ≡ some old
      → Rows.update d.env k w ≡ (
        ok (record k { updated_at = d.env.db_now w.step }),
        record {
          tables = record w.tables {
            tasks =
                update_rows
                  (λ row. eq_ℤ row.id k.id)
                  (set_task d.env k (d.env.db_now w.step))
                  w.tables.tasks;
          };
          step = suc w.step;
        },
      )
  unfolding Rows.update map_err ◌>>=◌ update_task
  row_update_quiet k old w found = rw (exec_quiet d.env q, found)

  task_update_quiet :
      (user_id task_id : Int64) (title description : String) (status : TaskStatus)
      (due_date : Option Instant) (w : World) (k : Task)
      → task_of task_id w.tables.tasks ≡ some k
      → k.user_id ≡ user_id
      → valid status ≡ true
      → Tasks.update (task_service d) user_id task_id title description status due_date w
        ≡ Rows.update d.env
            (record k {
              title = title;
              description = description;
              status = status;
              due_date = due_date;
            })
            (record { tables = w.tables; step = suc w.step })
  unfolding Tasks.update ◌>>=◌
  task_update_quiet user_id task_id title description status due_date w k found own fine =
      rw (get_quiet user_id task_id w k found own, fine)

-- Update edits one task. With the database to itself, a task of the user who asks and a valid
-- status, it returns the task with the new title, description, status and due date and the time of
-- the change, and keeps its id, owner and time of creation; the table then holds the same under
-- that id, with the due date as the column keeps it, and under every other id what it held.
pub update_task_effect :
    (d : Deployment) (user_id task_id : Int64) (title description : String) (status : TaskStatus)
    (due_date : Option Instant) (w : World) (k : Task)
    → IsQuiet d.env
    → task_of task_id w.tables.tasks ≡ some k
    → k.user_id ≡ user_id
    → valid status ≡ true
    → ((Tasks.update (task_service d) user_id task_id title description status due_date w).0
        ≡ ok (edited k title description status due_date (d.env.db_now (suc w.step))))
      × ((j : Int64)
          → task_of j
              (Tasks.update
                (task_service d)
                user_id
                task_id
                title
                description
                status
                due_date
                w).1.tables.tasks
            ≡ (if eq_ℤ j task_id
                then some (
                    edited k title description status
                      (Option.map d.env.stored due_date)
                      (d.env.db_now (suc w.step)))
                else task_of j w.tables.tasks))
unfolding set_task
update_task_effect d user_id task_id title description status due_date w k q found own fine =
    let id = find_row-id (λ (x : Task). x.id) task_id w.tables.tasks k found in
    let found' : task_of k.id w.tables.tasks ≡ some k =
      ap (λ i. task_of i w.tables.tasks) id ∙ found in
    let changed : Task = record k {
      title = title;
      description = description;
      status = status;
      due_date = due_date;
    } in
    rw
      (
        task_update_quiet d q user_id task_id title description status due_date w k found own fine,
        row_update_quiet d q changed k (record { tables = w.tables; step = suc w.step }) found',
      )
      (
        refl,
        λ j.
            find_row-update_id (λ x. x.id) _ k.id j w.tables.tasks k (λ y. refl) found'
            ∙ ap
                (λ i.
                  if eq_ℤ j i
                  then some (
                      edited k title description status (Option.map d.env.stored due_date)
                        (d.env.db_now (suc w.step)))
                  else task_of j w.tables.tasks)
                id,
      )

-- A status that is not one of the three changes nothing: with the database to itself, Update
-- answers an error that wraps ErrValidation.
pub update_invalid_status :
    (d : Deployment) (user_id task_id : Int64) (title description : String) (status : TaskStatus)
    (due_date : Option Instant) (w : World) (k : Task)
    → IsQuiet d.env
    → task_of task_id w.tables.tasks ≡ some k
    → k.user_id ≡ user_id
    → valid status ≡ false
    → ((e : Error) × ((Tasks.update
            (task_service d)
            user_id
            task_id
            title
            description
            status
            due_date
            w).0
          ≡ err e)
        × (is e validation ≡ true))
      × ((Tasks.update
            (task_service d)
            user_id
            task_id
            title
            description
            status
            due_date
            w).1.tables
          ≡ w.tables)
unfolding Tasks.update ◌>>=◌ is
update_invalid_status d user_id task_id title description status due_date w k q found own bad =
    rw (get_quiet d q user_id task_id w k found own, bad) ((_, refl, refl), refl)

row_delete_quiet :
    (d : Deployment) (q : IsQuiet d.env) (id : Int64) (w : World) (k : Task)
    → task_of id w.tables.tasks ≡ some k
    → Rows.delete d.env id w ≡ (
      ok tt,
      record {
        tables = record w.tables { tasks = delete_rows (λ x. eq_ℤ x.id id) w.tables.tasks };
        step = suc (suc w.step);
      },
    )
unfolding Rows.delete map_err ◌>>=◌ delete_task
row_delete_quiet d q id w k found =
    rw (exec_quiet d.env q, rows_affected_quiet d.env q)
      (ground (arith, count_rows-zero_iff (λ (x : Task). eq_ℤ x.id id) w.tables.tasks))

-- Delete removes one task. With the database to itself and a task of the user who asks, it
-- succeeds, the table then holds nothing under that id, and under every other id what it held.
pub delete_task_effect :
    (d : Deployment) (user_id task_id : Int64) (w : World) (k : Task)
    → IsQuiet d.env
    → task_of task_id w.tables.tasks ≡ some k
    → k.user_id ≡ user_id
    → ((Tasks.delete (task_service d) user_id task_id w).0 ≡ ok tt)
      × ((j : Int64)
          → task_of j (Tasks.delete (task_service d) user_id task_id w).1.tables.tasks
            ≡ (if eq_ℤ j task_id then none else task_of j w.tables.tasks))
unfolding Tasks.delete ◌>>=◌
delete_task_effect d user_id task_id w k q found own =
    rw
      (
        get_quiet d q user_id task_id w k found own,
        row_delete_quiet d q task_id (record { tables = w.tables; step = suc w.step }) k found,
      )
      (refl, λ j. find_row-delete_id (λ x. x.id) task_id j w.tables.tasks)
