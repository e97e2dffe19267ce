-- ===== src/Repository/Interfaces.antt =====
-- The interfaces of internal/repository, which the services depend on.
use taskflow_api.Base.{ℕ, String, List, ℤ}
use taskflow_api.Domain.{Task, User, RefreshToken, Int64, TaskStatus}
use taskflow_api.Store.{Io}

pub record UserRepository : Type 0 where
  pub create : User → Io User
  pub find_by_email : String → Io User
  pub find_by_id : Int64 → Io User

pub record ListParams : Type 0 where
  pub status : TaskStatus
  pub limit : ℤ
  pub offset : ℤ

pub record TaskRepository : Type 0 where
  pub create : Task → Io Task
  pub find_by_id : Int64 → Io Task
  pub list_by_user : Int64 → ListParams → Io (List Task × ℕ)
  pub update : Task → Io Task
  pub delete : Int64 → Io Unit

pub record RefreshTokenRepository : Type 0 where
  pub create : RefreshToken → Io RefreshToken
  pub find_by_hash : String → Io RefreshToken
  pub revoke : Int64 → Io Unit
  pub revoke_all_for_user : Int64 → Io Unit
