-- ===== src/Server/Runs.antt =====
-- What every run of calls, successful or not, does to the tables.
use taskflow_api.Base.{ℕ, List, [], ◌∷◌}
use taskflow_api.Store.{Tables, World}
use taskflow_api.Repository.Allows.{Allows, users-Allows, tasks-Allows, tokens-Allows}
use taskflow_api.Repository.Consistency.{IsConsistent, IsConsistent-Allows}
use taskflow_api.Repository.Evolution.{Evolves, Evolves-Allows}
use taskflow_api.Service.Allows.{
  create-Respects, list-Respects, get-Respects, update-Respects, delete-Respects, refresh-Respects,
  logout-Respects, signup-Respects, login-Respects,
}
use taskflow_api.Server.{
  Deployment, auth_service, task_service, Call, signs_up, logs_in, refreshes, logs_out, creates,
  lists, gets, updates, deletes, perform, run,
}

module _ (d : Deployment) {R : Tables → Tables → Type 0} (a : Allows d.env R) where
  perform_lem : (c : Call) (w : World) → R w.tables (perform d c w).tables
  unfolding perform
  perform_lem (signs_up email password) w =
      (signup-Respects a.order d.env d.crypto d.jwt (auth_service d) (tokens-Allows d.env a)
          (users-Allows d.env a) email password).at
        w
  perform_lem (logs_in email password) w =
      (login-Respects a.order d.env d.crypto d.jwt (auth_service d) (tokens-Allows d.env a)
          (users-Allows d.env a) email password).at
        w
  perform_lem (refreshes plaintext) w =
      (refresh-Respects a.order d.env d.crypto d.jwt (auth_service d) (tokens-Allows d.env a)
          plaintext).at
        w
  perform_lem (logs_out plaintext) w =
      (logout-Respects a.order d.env d.crypto d.jwt (auth_service d) (tokens-Allows d.env a)
          plaintext).at
        w
  perform_lem (creates user title description due) w =
      (create-Respects a.order (task_service d) (tasks-Allows d.env a) user title description
          due).at
        w
  perform_lem (lists user status limit offset) w =
      (list-Respects a.order (task_service d) (tasks-Allows d.env a) user status limit offset).at w
  perform_lem (gets user id) w =
      (get-Respects a.order (task_service d) (tasks-Allows d.env a) user id).at w
  perform_lem (updates user id title description status due) w =
      (update-Respects a.order (task_service d) (tasks-Allows d.env a) user id title description
          status due).at
        w
  perform_lem (deletes user id) w =
      (delete-Respects a.order (task_service d) (tasks-Allows d.env a) user id).at w

  run_lem : (cs : List Call) (w : World) → R w.tables (run d cs w).tables
  unfolding run
  run_lem [] w = a.order.reflexive w.tables
  run_lem (c ∷ cs) w =
      a.order.transitive w.tables (perform d c w).tables (run d cs (perform d c w)).tables
        (perform_lem c w) (run_lem cs (perform d c w))

-- If the other clients of the database keep the constraints of the schema, then so does every run
-- of calls, whatever fails on the way: ids are distinct and come from their sequences, e-mails and
-- token hashes are distinct, and tasks and tokens belong to users that exist.
pub run-IsConsistent :
    (d : Deployment) (cs : List Call) (w : World)
    → ((n : ℕ) (t : Tables) → IsConsistent t → IsConsistent (d.env.others n t))
    → IsConsistent w.tables
    → IsConsistent (run d cs w).tables
run-IsConsistent d cs w rely c = run_lem d (IsConsistent-Allows d.env rely) cs w c

-- If the other clients only append users and tokens and only revoke tokens that are not revoked,
-- then so does every run of calls: a user's row is found under its e-mail unchanged, and a token's
-- row under its hash, the same or revoked once.
pub run-Evolves :
    (d : Deployment) (cs : List Call) (w : World)
    → ((n : ℕ) (t : Tables) → Evolves t (d.env.others n t))
    → Evolves w.tables (run d cs w).tables
run-Evolves d cs w rely = run_lem d (Evolves-Allows d.env rely) cs w
