-- ===== src/Server/TaskCreation.antt =====
-- TaskService.Create, when one client has the database to itself.
use taskflow_api.Base.{ℕ, String, ◌≡◌, refl, Option, none, some, if◌then◌else◌, pos, eq_ℤ}
use taskflow_api.Domain.{Task, Instant, Int64, pending}
use taskflow_api.Domain.Errors.{ok}
use taskflow_api.Store.{World, ◌>>=◌, map_err}
use mathlib.Core.Option
use taskflow_api.Sql.Ids.{find_row-next, find_row-insert_id}
use taskflow_api.Sql.Rows.{exists_row-find_row}
use taskflow_api.Store.Quiet.{IsQuiet, exec_quiet}
use taskflow_api.Repository.Tasks.{insert_task, update_task, set_task, delete_task}
use taskflow_api.Repository.Consistency.{IsConsistent, HasUser}
use taskflow_api.Repository.Tasks as Rows
use taskflow_api.Service.Tasks
use taskflow_api.Server.{Deployment, task_service}
use taskflow_api.Server.Ownership.{task_of}

-- What an INSERT of a new task stores.
abbrev pub created : ℕ → Int64 → String → String → Option Instant → Instant → Task
created n user_id title description due_date now = record {
  id = pos n;
  user_id = user_id;
  title = title;
  description = description;
  status = pending;
  due_date = due_date;
  created_at = now;
  updated_at = now;
}

-- Create adds one task. With the database to itself, consistent tables and a user that exists, it
-- returns a pending task of that user under the next value of the sequence, which is no other
-- task's id; the table then holds it under that id, with the due date as the column keeps it, and
-- under every other id what it held.
pub create_task_effect :
    (d : Deployment) (user_id : Int64) (title description : String) (due_date : Option Instant)
    (w : World)
    → IsQuiet d.env
    → IsConsistent w.tables
    → HasUser w.tables.users user_id
    → ((Tasks.create (task_service d) user_id title description due_date w).0
        ≡ ok (created w.tables.next_task user_id title description due_date (d.env.db_now w.step)))
      × (task_of (pos w.tables.next_task) w.tables.tasks ≡ none)
      × ((j : Int64)
          → task_of j
              (Tasks.create (task_service d) user_id title description due_date w).1.tables.tasks
            ≡ (if eq_ℤ j (pos w.tables.next_task)
                then some (
                    created w.tables.next_task user_id title description
                      (Option.map d.env.stored due_date)
                      (d.env.db_now w.step))
                else task_of j w.tables.tasks))
unfolding Tasks.create Rows.create map_err ◌>>=◌ insert_task
create_task_effect d user_id title description due_date w q c known =
    rw (exec_quiet d.env q, known)
      (
        refl,
        exists_row-find_row _ w.tables.tasks
            (find_row-next (λ x. x.id) w.tables.next_task w.tables.tasks c.tasks.sequence),
        λ j.
            find_row-insert_id (λ x. x.id) w.tables.next_task j w.tables.tasks _ refl
              c.tasks.sequence,
      )
