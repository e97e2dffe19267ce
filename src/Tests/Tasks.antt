-- ===== src/Tests/Tasks.antt =====
-- Tasks and pages at concrete inputs.
use taskflow_api.Base.{
  ◌≡◌, refl, ◌≢◌, Bool, true, none, some, [], ◌∷◌, arith, if◌then◌else◌, ℤ, pos, negsuc, eq_ℤ,
}
use taskflow_api.Domain.{Int64, done, valid}
use taskflow_api.Domain.Errors.{forbidden, sentinel, is_no_rows, ok, err}
use taskflow_api.Sql.{find_row, select_rows, count_rows, delete_rows, update_rows, exists_row}
use taskflow_api.Store.{◌>>=◌, map_err, exec, rows_affected}
use taskflow_api.Repository.Tasks as Rows
use taskflow_api.Service.Tasks
use taskflow_api.Service.Tasks.{Page, effective_limit, effective_offset}
use taskflow_api.Server.{task_service}
use taskflow_api.Server.Ownership.{task_of, after_lookup, foreign_task_forbidden}
use taskflow_api.Server.TaskMap.{edited, update_task_effect}
use taskflow_api.Server.TaskCreation.{created, create_task_effect}
use taskflow_api.Server.Pages.{IsPage, list-IsPage}
use taskflow_api.Tests.Ordering.{by_creation, by_creation-IsOrdering}
use taskflow_api.Tests.Sample.{process, env-IsQuiet, stocked, task, IsConsistent-stocked}

-- The definitions that a call of TaskService runs through.
task_runs : Bool
unfolding Tasks.create Tasks.list Tasks.get Tasks.update Tasks.delete Rows.create Rows.insert_task
    Rows.find_by_id Rows.select_task Rows.list_by_user Rows.query_page Rows.scan_page
    Rows.page_tasks Rows.count_tasks Rows.listed Rows.scan_rows Rows.update Rows.update_task
    Rows.delete Rows.delete_task by_creation rows_affected map_err ◌>>=◌ exec exists_row find_row
    update_rows delete_rows count_rows select_rows is_no_rows eq_ℤ valid effective_limit
    effective_offset
task_runs = true

listed_one :
    (Tasks.list (task_service process) (pos 1) "" (pos 0) (negsuc 4) stocked).0
    ≡ ok (record { tasks = task ∷ []; total = 1; limit = pos 20; offset = pos 0 })
unfolding task_runs
listed_one = refl

got : (Tasks.get (task_service process) (pos 1) (pos 1) stocked).0 ≡ ok task
unfolding task_runs
got = refl

others_task : ◌≢◌ {A = ℤ} (pos 1) (pos 2)
others_task e = ground arith

foreign_task_forbidden_example :
    (Tasks.get (task_service process) (pos 2) (pos 1) stocked
      ≡ (err (sentinel forbidden), after_lookup process stocked))
    × (Tasks.update (task_service process) (pos 2) (pos 1) "mine" "" done none stocked
        ≡ (err (sentinel forbidden), after_lookup process stocked))
    × (Tasks.delete (task_service process) (pos 2) (pos 1) stocked
        ≡ (err (sentinel forbidden), after_lookup process stocked))
unfolding task_runs
foreign_task_forbidden_example =
    foreign_task_forbidden process (pos 2) (pos 1) "mine" "" done none stocked task refl refl
      others_task

update_task_effect_example :
    ((Tasks.update (task_service process) (pos 1) (pos 1) "read" "a book" done none stocked).0
      ≡ ok (edited task "read" "a book" done none (pos 1)))
    × ((j : Int64)
        → task_of j
            (Tasks.update
              (task_service process)
              (pos 1)
              (pos 1)
              "read"
              "a book"
              done
              none
              stocked).1.tables.tasks
          ≡ (if eq_ℤ j (pos 1)
              then some (edited task "read" "a book" done none (pos 1))
              else task_of j stocked.tables.tasks))
unfolding task_runs
update_task_effect_example =
    update_task_effect process (pos 1) (pos 1) "read" "a book" done none stocked task env-IsQuiet
      refl refl refl

create_task_effect_example :
    ((Tasks.create (task_service process) (pos 1) "new" "" none stocked).0
      ≡ ok (created 2 (pos 1) "new" "" none (pos 0)))
    × (task_of (pos 2) stocked.tables.tasks ≡ none)
    × ((j : Int64)
        → task_of j
            (Tasks.create (task_service process) (pos 1) "new" "" none stocked).1.tables.tasks
          ≡ (if eq_ℤ j (pos 2)
              then some (created 2 (pos 1) "new" "" none (pos 0))
              else task_of j stocked.tables.tasks))
unfolding exists_row eq_ℤ
create_task_effect_example =
    create_task_effect process (pos 1) "new" "" none stocked env-IsQuiet IsConsistent-stocked refl

list-IsPage_example :
    (p : Page) × (Tasks.list (task_service process) (pos 1) "" (pos 500) (pos 0) stocked
      ≡ (ok p, record { tables = stocked.tables; step = 2 }))
    × IsPage (pos 1) "" (pos 500) (pos 0) stocked.tables p
list-IsPage_example =
    list-IsPage process (pos 1) "" (pos 500) (pos 0) stocked env-IsQuiet by_creation-IsOrdering
