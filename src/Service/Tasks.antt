-- ===== src/Service/Tasks.antt =====
-- internal/service/task_service.go
use taskflow_api.Base.{ℕ, String, Option, List, if◌then◌else◌, ℤ, pos, ltb_ℤ, leb_ℤ, eq_ℤ}
use taskflow_api.Domain.{Task, Instant, Int64, TaskStatus, pending, valid, zero_id, zero_time}
use taskflow_api.Domain.Errors.{forbidden, validation, Error, sentinel, wrapf}
use taskflow_api.Store.{Io, ◌>>=◌, ◌>>◌, return, raise}
use Prim.Native.String.{◌++◌ as str_append}
use taskflow_api.Repository.Interfaces.{TaskRepository}

pub record TaskService : Type 0 where
  pub tasks : TaskRepository

abbrev pub default_page_limit : ℤ
default_page_limit = pos 20

abbrev pub max_page_limit : ℤ
max_page_limit = pos 100

-- The two tests on the limit, one after the other, and the test on the offset.
unfoldable pub effective_limit : ℤ → ℤ
effective_limit limit =
    let given = if leb_ℤ limit (pos 0) then default_page_limit else limit in
    if ltb_ℤ max_page_limit given then max_page_limit else given

unfoldable pub effective_offset : ℤ → ℤ
effective_offset offset = if ltb_ℤ offset (pos 0) then pos 0 else offset

pub record Page : Type 0 where
  pub tasks : List Task
  pub total : ℕ
  pub limit : ℤ
  pub offset : ℤ

-- `fmt.Errorf("%w: invalid status %q", domain.ErrValidation, status)`, for a status that `%q` need
-- not escape.
abbrev invalid_status : TaskStatus → Error
invalid_status status =
    wrapf "" (sentinel validation) (str_append ": invalid status \"" (str_append status "\""))

module _ (s : TaskService) where
  unfoldable pub create : Int64 → String → String → Option Instant → Io Task
  create user_id title description due_date = s.tasks.create (record {
    id = zero_id;
    user_id = user_id;
    title = title;
    description = description;
    status = pending;
    due_date = due_date;
    created_at = zero_time;
    updated_at = zero_time;
  })

  -- The effective bounds come back with the page.
  unfoldable pub list : Int64 → TaskStatus → ℤ → ℤ → Io Page
  list user_id status limit offset = do
    let lim = effective_limit limit
    let off = effective_offset offset
    found ← s.tasks.list_by_user user_id (record { status = status; limit = lim; offset = off })
    return (record { tasks = found.0; total = found.1; limit = lim; offset = off })

  unfoldable pub get : Int64 → Int64 → Io Task
  get user_id task_id = do
    task ← s.tasks.find_by_id task_id
    if eq_ℤ task.user_id user_id then return task else raise (sentinel forbidden)

  unfoldable pub update : Int64 → Int64 → String → String → TaskStatus → Option Instant → Io Task
  update user_id task_id title description status due_date = do
    task ← get user_id task_id
    let changed = record task {
      title = title;
      description = description;
      status = status;
      due_date = due_date;
    }
    if valid status then s.tasks.update changed else raise (invalid_status status)

  unfoldable pub delete : Int64 → Int64 → Io Unit
  delete user_id task_id = do get user_id task_id; s.tasks.delete task_id
