-- ===== src/Server/Board.antt =====
-- An abstract view of the database for the tasks of internal/service/task_service.go: a map from
-- ids to tasks, which forgets rows and their order, and the users that are known. The services are
-- specified by what each call may do to it.
pub mod Effects
pub mod Refines
pub mod Isolation
use taskflow_api.Base.{
  String, ◌≡◌, ◌≢◌, Bool, true, false, ◌⊎◌, Option, none, some, List, [], ◌∷◌, if◌then◌else◌, ℤ,
  eq_ℤ,
}
use mathlib.Core.Option
use taskflow_api.Domain.{Task, Instant, Int64, TaskStatus, valid, pending}
use taskflow_api.Sql.{exists_row}
use taskflow_api.Store.{Tables}
use taskflow_api.Server.{
  Call, signs_up, logs_in, refreshes, logs_out, creates, lists, gets, updates, deletes,
}
use taskflow_api.Server.Ownership.{task_of}
use taskflow_api.Server.TaskMap.{edited}

pub record Board : Type 0 where
  pub task : Int64 → Option Task
  pub knows : Int64 → Bool

abbrev pub board : Tables → Board
board t = record {
  task = λ id. task_of id t.tasks;
  knows = λ id. exists_row (λ u. eq_ℤ u.id id) t.users;
}

-- Every task is as before.
abbrev pub SameTasks : Board → Board → Type 0
SameTasks b b' = (j : Int64) → b'.task j ≡ b.task j

-- One id has a new task, or none, and every other task is as before.
abbrev pub Puts : Int64 → Option Task → Board → Board → Type 0
Puts id o b b' = (j : Int64) → b'.task j ≡ (if eq_ℤ j id then o else b.task j)

-- The user has no task of this id: there is none, or it is of another user.
abbrev pub IsForeign : Board → Int64 → Int64 → Type 0
IsForeign b user_id id = (k : Task) → b.task id ≡ some k → k.user_id ≢ user_id

-- What a call may do: a task is created by a known user under an id that was free, as pending; it is
-- changed and removed by its owner only, and changed only to a valid status. A due date is kept as a
-- column stores it.
pub data Permits (stored : Instant → Instant) (b b' : Board) : Call → Type 0 where
  session_up :
      (email password : String) → SameTasks b b' → Permits stored b b' (signs_up email password)
  session_in :
      (email password : String) → SameTasks b b' → Permits stored b b' (logs_in email password)
  session_next : (plaintext : String) → SameTasks b b' → Permits stored b b' (refreshes plaintext)
  session_out : (plaintext : String) → SameTasks b b' → Permits stored b b' (logs_out plaintext)
  created :
      (user_id : Int64) (title description : String) (due : Option Instant) (k : Task)
      → b.knows user_id ≡ true
      → b.task k.id ≡ none
      → k.user_id ≡ user_id
      → k.title ≡ title
      → k.description ≡ description
      → k.status ≡ pending
      → k.due_date ≡ Option.map stored due
      → Puts k.id (some k) b b'
      → Permits stored b b' (creates user_id title description due)
  not_created :
      (user_id : Int64) (title description : String) (due : Option Instant)
      → b.knows user_id ≡ false
      → SameTasks b b'
      → Permits stored b b' (creates user_id title description due)
  listed :
      (user_id : Int64) (status : TaskStatus) (limit offset : ℤ)
      → SameTasks b b'
      → Permits stored b b' (lists user_id status limit offset)
  got : (user_id id : Int64) → SameTasks b b' → Permits stored b b' (gets user_id id)
  updated :
      (user_id id : Int64) (title description : String) (status : TaskStatus) (due : Option Instant)
      (now : Instant) (k : Task)
      → b.task id ≡ some k
      → k.user_id ≡ user_id
      → valid status ≡ true
      → Puts id (some (edited k title description status (Option.map stored due) now)) b b'
      → Permits stored b b' (updates user_id id title description status due)
  not_updated :
      (user_id id : Int64) (title description : String) (status : TaskStatus) (due : Option Instant)
      → IsForeign b user_id id ⊎ (valid status ≡ false)
      → SameTasks b b'
      → Permits stored b b' (updates user_id id title description status due)
  deleted :
      (user_id id : Int64) (k : Task)
      → b.task id ≡ some k
      → k.user_id ≡ user_id
      → Puts id none b b'
      → Permits stored b b' (deletes user_id id)
  not_deleted :
      (user_id id : Int64)
      → IsForeign b user_id id
      → SameTasks b b'
      → Permits stored b b' (deletes user_id id)

-- A run of calls, each of which does what it may.
pub data PermitsRun (stored : Instant → Instant) : List Call → Board → Board → Type 0 where
  done : {b : Board} → PermitsRun stored [] b b
  next :
      {b b' b'' : Board} {c : Call} {cs : List Call}
      → Permits stored b b' c
      → PermitsRun stored cs b' b''
      → PermitsRun stored (c ∷ cs) b b''
