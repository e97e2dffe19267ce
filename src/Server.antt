-- ===== src/Server.antt =====
-- cmd/api/main.go: the repositories, the services and the calls that reach them.
pub mod Runs
pub mod Rotation
pub mod Race
pub mod Pages
pub mod TaskMap
pub mod TaskCreation
pub mod Ownership
pub mod Reuse
pub mod Accounts
pub mod Sessions
pub mod Board
use taskflow_api.Base.{◌-◌, String, Option, List, [], ◌∷◌, ℤ}
use taskflow_api.Domain.{User, Instant, Int64, TaskStatus}
use taskflow_api.Store.{Env, World, Io}
use taskflow_api.Repository.Users.{user_repository}
use taskflow_api.Repository.Tasks.{task_repository}
use taskflow_api.Repository.RefreshTokens.{refresh_token_repository}
use taskflow_api.Service.Tokens.{Jwt, TokenManager}
use taskflow_api.Service.RefreshTokens.{Crypto}
use taskflow_api.Service.Tasks
use taskflow_api.Service.Tasks.{TaskService}
use taskflow_api.Service.Auth
use taskflow_api.Service.Auth.{AuthService}

-- The environment, the libraries and the settings that a process runs with.
pub record Deployment : Type 0 where
  pub env : Env
  pub crypto : Crypto
  pub jwt : Jwt
  pub jwt_secret : String
  pub jwt_expires_in : ℤ
  pub refresh_token_ttl : ℤ

abbrev pub tokens : Deployment → TokenManager
tokens d = record { secret = d.jwt_secret; expires_in = d.jwt_expires_in }

abbrev pub auth_service : Deployment → AuthService
auth_service d = record {
  users = user_repository d.env;
  refresh_tokens = refresh_token_repository d.env;
  tokens = tokens d;
  refresh_ttl = d.refresh_token_ttl;
}

abbrev pub task_service : Deployment → TaskService
task_service d = record { tasks = task_repository d.env }

-- The methods of the services, as the process serves them.
module _ (d : Deployment) where
  abbrev pub signup : String → String → Io (User × String × String)
  signup = Auth.signup d.env d.crypto d.jwt (auth_service d)

  abbrev pub login : String → String → Io (User × String × String)
  login = Auth.login d.env d.crypto d.jwt (auth_service d)

  abbrev pub refresh : String → Io (String × String)
  refresh = Auth.refresh d.env d.crypto d.jwt (auth_service d)

  abbrev pub logout : String → Io Unit
  logout = Auth.logout d.env d.crypto d.jwt (auth_service d)

-- A call of a service, with its arguments.
pub data Call : Type 0 where
  signs_up : String → String → Call
  logs_in : String → String → Call
  refreshes : String → Call
  logs_out : String → Call
  creates : Int64 → String → String → Option Instant → Call
  lists : Int64 → TaskStatus → ℤ → ℤ → Call
  gets : Int64 → Int64 → Call
  updates : Int64 → Int64 → String → String → TaskStatus → Option Instant → Call
  deletes : Int64 → Int64 → Call

unfoldable pub perform : Deployment → Call → World → World
perform d (signs_up email password) w = (signup d email password w).1
perform d (logs_in email password) w = (login d email password w).1
perform d (refreshes plaintext) w = (refresh d plaintext w).1
perform d (logs_out plaintext) w = (logout d plaintext w).1
perform d (creates user title description due) w =
    (Tasks.create (task_service d) user title description due w).1
perform d (lists user status limit offset) w =
    (Tasks.list (task_service d) user status limit offset w).1
perform d (gets user id) w = (Tasks.get (task_service d) user id w).1
perform d (updates user id title description status due) w =
    (Tasks.update (task_service d) user id title description status due w).1
perform d (deletes user id) w = (Tasks.delete (task_service d) user id w).1

-- The world after the calls, from the first to the last.
unfoldable pub run : Deployment → List Call → World → World
run d [] w = w
run d (c ∷ cs) w = run d cs (perform d c w)
