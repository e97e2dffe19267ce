-- ===== src/Repository/Tasks.antt =====
-- internal/repository/task_repository.go, with the table tasks of migrations/0001_init.sql.
use taskflow_api.Base.{
  ℕ, suc, String, Bool, true, ◌&&◌, Option, none, some, List, [], ◌∷◌, ◌++◌, str_eq, ◌==◌,
  if◌then◌else◌, take, drop, pos, pos_part, ltb_ℤ, eq_ℤ,
}
use taskflow_api.Domain.{Task, Instant, Int64, TaskStatus}
use taskflow_api.Domain.Errors.{not_found, sentinel, pg_error, other, Result, ok, err}
use taskflow_api.Sql.{find_row, select_rows, count_rows, delete_rows, update_rows, exists_row}
use taskflow_api.Store.{
  Env, Io, ◌>>=◌, return, raise, map_err, wrap, Statement, exec, rows_affected,
}
use mathlib.Core.Option
use taskflow_api.Repository.Interfaces.{TaskRepository, ListParams}
use taskflow_api.Repository.Users.{one_row, find_error}

-- INSERT INTO tasks (user_id, title, description, status, due_date) … RETURNING id, created_at,
-- updated_at. The column user_id REFERENCES users(id).
unfoldable pub insert_task : Env → Task → Statement (Int64 × Instant × Instant)
insert_task env k now t =
    let t' = record t { next_task = suc t.next_task } in
    let row : Task = record k {
      id = pos t.next_task;
      due_date = Option.map env.stored k.due_date;
      created_at = now;
      updated_at = now;
    } in
    if exists_row (λ u. eq_ℤ u.id k.user_id) t.users
    then (ok (pos t.next_task, now, now), record t' { tasks = t.tasks ++ row ∷ [] })
    else (err (pg_error "23503" (env.message "23503")), t')

unfoldable pub select_task : Int64 → Statement Task
select_task id now t = (one_row (find_row (λ k. eq_ℤ k.id id) t.tasks), t)

-- The clause that `ListByUser` builds: the status is asked for unless it is "".
unfoldable pub listed : Int64 → TaskStatus → Task → Bool
listed user_id status k =
    eq_ℤ k.user_id user_id && (if str_eq status "" then true else str_eq k.status status)

unfoldable pub count_tasks : Int64 → TaskStatus → Statement ℕ
count_tasks user_id status now t = (ok (count_rows (listed user_id status) t.tasks), t)

-- SELECT … ORDER BY created_at DESC LIMIT … OFFSET …, whose bounds the server wants to be at
-- least 0.
unfoldable pub page_tasks : Env → ℕ → Int64 → ListParams → Statement (List Task)
page_tasks env n user_id p now t =
    let rows = env.order n (select_rows (listed user_id p.status) t.tasks) in
    (
      if ltb_ℤ p.limit (pos 0)
          then err (pg_error "2201W" (env.message "2201W"))
          else if ltb_ℤ p.offset (pos 0)
          then err (pg_error "2201X" (env.message "2201X"))
          else ok (take (pos_part p.limit) (drop (pos_part p.offset) rows)),
      t,
    )

-- UPDATE tasks SET title, description, status, due_date, updated_at WHERE id RETURNING updated_at
unfoldable pub set_task : Env → Task → Instant → Task → Task
set_task env k now row = record row {
  title = k.title;
  description = k.description;
  status = k.status;
  due_date = Option.map env.stored k.due_date;
  updated_at = now;
}

unfoldable pub update_task : Env → Task → Statement Instant
unfolding set_task
update_task env k now t = (
  one_row (Option.map (λ _. now) (find_row (λ row. eq_ℤ row.id k.id) t.tasks)),
  record t { tasks = update_rows (λ row. eq_ℤ row.id k.id) (set_task env k now) t.tasks },
)

-- DELETE FROM tasks WHERE id, which tells how many rows it deleted.
unfoldable pub delete_task : Int64 → Statement ℕ
delete_task id now t = (
  ok (count_rows (λ k. eq_ℤ k.id id) t.tasks),
  record t { tasks = delete_rows (λ k. eq_ℤ k.id id) t.tasks },
)

-- The loop over `rows.Next()`, and `rows.Err()` after it.
unfoldable pub scan_rows :
    (ℕ → Option String) → Option String → ℕ → List Task → List Task → Result (List Task)
scan_rows scan last i [] tasks = elim last [
  | none ↦ ok tasks
  | some text ↦ err (wrap "iterate task rows: " (other text))
]
scan_rows scan last i (k ∷ rows) tasks =
    let rest = scan_rows scan last (suc i) rows (tasks ++ k ∷ []) in
    elim (scan i) [ none ↦ rest | some text ↦ err (wrap "scan task row: " (other text)) ]

module _ (env : Env) where
  unfoldable pub create : Task → Io Task
  create k = do
    scanned ← map_err (wrap "insert task: ") (exec env (insert_task env k))
    return (record k { id = scanned.0; created_at = scanned.1; updated_at = scanned.2 })

  unfoldable pub find_by_id : Int64 → Io Task
  find_by_id id = map_err (find_error "find task by id: ") (exec env (select_task id))

  -- The query is sent at the step at which it is reached.
  unfoldable pub query_page : Int64 → ListParams → Io (List Task)
  query_page user_id p w = exec env (page_tasks env w.step user_id p) w

  unfoldable pub scan_page : List Task → Io (List Task)
  scan_page rows w = (scan_rows (env.scan_fault w.step) (env.rows_fault w.step) 0 rows [], w)

  unfoldable pub list_by_user : Int64 → ListParams → Io (List Task × ℕ)
  unfolding query_page scan_page
  list_by_user user_id p = do
    total ← map_err (wrap "count tasks: ") (exec env (count_tasks user_id p.status))
    rows ← map_err (wrap "list tasks: ") (query_page user_id p)
    tasks ← scan_page rows
    return (tasks, total)

  unfoldable pub update : Task → Io Task
  update k = do
    updated_at ← map_err (find_error "update task: ") (exec env (update_task env k))
    return (record k { updated_at = updated_at })

  unfoldable pub delete : Int64 → Io Unit
  delete id = do
    res ← map_err (wrap "delete task: ") (exec env (delete_task id))
    affected ← map_err (wrap "delete task rows affected: ") (rows_affected env res)
    if affected == 0 then raise (sentinel not_found) else return tt

  -- `NewTaskRepository`
  abbrev pub task_repository : TaskRepository
  task_repository = record {
    create = create;
    find_by_id = find_by_id;
    list_by_user = list_by_user;
    update = update;
    delete = delete;
  }
