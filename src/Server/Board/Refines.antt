-- ===== src/Server/Board/Refines.antt =====
-- The services on the tables, call by call, beside the abstract view.
use taskflow_api.Base.{
  ℕ, suc, String, refl, Bool-cases, inl, inr, Option, none, Option-cases, List, [], ◌∷◌, ℤ, eq_ℤ,
  eq_ℤ_iff, ap,
}
use taskflow_api.Domain.{Instant, Int64, TaskStatus, valid, pending}
use taskflow_api.Domain.Errors.{Result}
use taskflow_api.Store.{Tables, World}
use taskflow_api.Store.Quiet.{IsQuiet}
use taskflow_api.Repository.Allows.{users-AllowsUsers, tokens-AllowsTokens}
use taskflow_api.Repository.Consistency.{IsConsistent}
use taskflow_api.Service.Allows.{refresh-Respects, logout-Respects, signup-Respects, login-Respects}
use mathlib.Core.Option
use taskflow_api.Service.Tasks
use taskflow_api.Server.{
  Deployment, auth_service, task_service, signup, login, refresh, logout, Call, signs_up, logs_in,
  refreshes, logs_out, creates, lists, gets, updates, deletes, perform, run,
}
use taskflow_api.Server.Runs.{run-IsConsistent}
use taskflow_api.Server.Ownership.{task_of}
use taskflow_api.Server.TaskMap.{update_task_effect, update_invalid_status, delete_task_effect}
use taskflow_api.Server.TaskCreation
use taskflow_api.Server.TaskCreation.{create_task_effect}
use taskflow_api.Server.Pages.{list_quiet}
use taskflow_api.Server.Board.{
  board, SameTasks, Permits, session_up, session_in, session_next, session_out, created,
  not_created, listed, got, updated, not_updated, deleted, not_deleted, PermitsRun, done, next,
}
use taskflow_api.Server.Board.Effects.{
  KeepsTasks-IsPreorder, KeepsTasks-AllowsAccounts, same, get-same, create_unknown, not_owner,
  no_row, refused_same, absent_same,
}

module _ (d : Deployment) (q : IsQuiet d.env) where
  create-Permits :
      (user_id : Int64) (title description : String) (due : Option Instant) (w : World)
      → IsConsistent w.tables
      → Permits d.env.stored
          (board w.tables)
          (board (perform d (creates user_id title description due) w).tables)
          (creates user_id title description due)
  unfolding perform
  create-Permits user_id title description due w c =
      elim (Bool-cases ((board w.tables).knows user_id)) [
        | inl known ↦
            let (_, free, puts) = create_task_effect d user_id title description due w q c known in
            created user_id title description due
              (TaskCreation.created w.tables.next_task user_id title description
                (Option.map d.env.stored due) (d.env.db_now w.step))
              known free refl refl refl refl refl puts
        | inr unknown ↦ not_created user_id title description due unknown (
            same d q w (Tasks.create (task_service d) user_id title description due w).1
              (create_unknown d q user_id title description due w unknown))
      ]

  update-Permits :
      (user_id id : Int64) (title description : String) (status : TaskStatus) (due : Option Instant)
      (w : World)
      → Permits d.env.stored
          (board w.tables)
          (board (perform d (updates user_id id title description status due) w).tables)
          (updates user_id id title description status due)
  unfolding perform
  update-Permits user_id id title description status due w =
      elim (Option-cases (task_of id w.tables.tasks)) [
        | inl missing ↦
            not_updated user_id id title description status due
              (inl (no_row d q (board w.tables) user_id id missing))
              (absent_same d q user_id id title description status due w missing).0
        | inr (k, found) ↦ elim (Bool-cases (eq_ℤ k.user_id user_id)) [
          | inr foreign ↦
              not_updated user_id id title description status due
                (inl (not_owner d q (board w.tables) user_id id k found foreign))
                (refused_same d q user_id id title description status due w k found foreign).0
          | inl own ↦
              let mine = (eq_ℤ_iff k.user_id user_id).0 own in
              elim (Bool-cases (valid status)) [
                | inl fine ↦
                    updated user_id id title description status due (d.env.db_now (suc w.step)) k
                      found mine fine
                      (update_task_effect d user_id id title description status due w k q found mine
                        fine).1
                | inr bad ↦ not_updated user_id id title description status due (inr bad) (
                    same d q w
                      (Tasks.update (task_service d) user_id id title description status due w).1
                      (ap (λ (t : Tables). t.tasks)
                        (update_invalid_status d user_id id title description status due w k q found
                          mine bad).1))
              ]
        ]
      ]

  delete-Permits :
      (user_id id : Int64) (w : World)
      → Permits d.env.stored
          (board w.tables)
          (board (perform d (deletes user_id id) w).tables)
          (deletes user_id id)
  unfolding perform
  delete-Permits user_id id w = elim (Option-cases (task_of id w.tables.tasks)) [
    | inl missing ↦
        not_deleted user_id id (no_row d q (board w.tables) user_id id missing)
          (absent_same d q user_id id "" "" pending none w missing).1
    | inr (k, found) ↦ elim (Bool-cases (eq_ℤ k.user_id user_id)) [
      | inr foreign ↦
          not_deleted user_id id (not_owner d q (board w.tables) user_id id k found foreign)
            (refused_same d q user_id id "" "" pending none w k found foreign).1
      | inl own ↦
          let mine = (eq_ℤ_iff k.user_id user_id).0 own in
          deleted user_id id k found mine (delete_task_effect d user_id id w k q found mine).1
    ]
  ]

  list-same :
      (user_id : Int64) (status : TaskStatus) (limit offset : ℤ) (w : World)
      → SameTasks (board w.tables) (board (perform d (lists user_id status limit offset) w).tables)
  unfolding perform
  list-same user_id status limit offset w j =
      ap (λ (x : Result Tasks.Page × World). task_of j x.1.tables.tasks)
        (list_quiet d user_id status limit offset w q)

  -- Every call does what the view permits.
  pub perform-Permits :
      (c : Call) (w : World)
      → IsConsistent w.tables
      → Permits d.env.stored (board w.tables) (board (perform d c w).tables) c
  unfolding perform
  perform-Permits (signs_up email password) w c = session_up email password (
      same d q w (signup d email password w).1 (
        (signup-Respects KeepsTasks-IsPreorder d.env d.crypto d.jwt (auth_service d)
            (tokens-AllowsTokens d.env (KeepsTasks-AllowsAccounts d q))
            (users-AllowsUsers d.env (KeepsTasks-AllowsAccounts d q)) email password).at
          w))
  perform-Permits (logs_in email password) w c = session_in email password (
      same d q w (login d email password w).1 (
        (login-Respects KeepsTasks-IsPreorder d.env d.crypto d.jwt (auth_service d)
            (tokens-AllowsTokens d.env (KeepsTasks-AllowsAccounts d q))
            (users-AllowsUsers d.env (KeepsTasks-AllowsAccounts d q)) email password).at
          w))
  perform-Permits (refreshes plaintext) w c = session_next plaintext (
      same d q w (refresh d plaintext w).1 (
        (refresh-Respects KeepsTasks-IsPreorder d.env d.crypto d.jwt (auth_service d)
            (tokens-AllowsTokens d.env (KeepsTasks-AllowsAccounts d q)) plaintext).at
          w))
  perform-Permits (logs_out plaintext) w c = session_out plaintext (
      same d q w (logout d plaintext w).1 (
        (logout-Respects KeepsTasks-IsPreorder d.env d.crypto d.jwt (auth_service d)
            (tokens-AllowsTokens d.env (KeepsTasks-AllowsAccounts d q)) plaintext).at
          w))
  perform-Permits (creates user title description due) w c =
      create-Permits user title description due w c
  perform-Permits (lists user status limit offset) w c =
      listed user status limit offset (list-same user status limit offset w)
  perform-Permits (gets user id) w c = got user id (get-same d q user id w)
  perform-Permits (updates user id title description status due) w c =
      update-Permits user id title description status due w
  perform-Permits (deletes user id) w c = delete-Permits user id w

  pub alone-IsConsistent : (n : ℕ) (t : Tables) → IsConsistent t → IsConsistent (d.env.others n t)
  alone-IsConsistent n t c = rw (q.alone n t) c

-- The services refine the abstract view: if every statement succeeds and the process is the
-- database's only client, then from consistent tables every call of a run does to the map of tasks
-- what the view permits for it. A created task belongs to a known user, has the title, the
-- description and the due date of the call, is pending and takes an id that was free; a task is
-- changed, and then to a valid status, or removed only by its owner; and no other call, and no call
-- that is not permitted, changes a task.
pub run-PermitsRun :
    (d : Deployment) (cs : List Call) (w : World)
    → IsQuiet d.env
    → IsConsistent w.tables
    → PermitsRun d.env.stored cs (board w.tables) (board (run d cs w).tables)
unfolding run
run-PermitsRun d [] w q c = done
run-PermitsRun d (x ∷ cs) w q c = next (perform-Permits d q x w c) (
    run-PermitsRun d cs (perform d x w) q
      (run-IsConsistent d (x ∷ []) w (alone-IsConsistent d q) c))
