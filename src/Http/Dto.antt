-- ===== src/Http/Dto.antt =====
-- internal/httpapi/dto: what the bodies of requests and responses hold.
use taskflow_api.Base.{
  String, ℕ, not, ◌&&◌, ◌||◌, Option, none, some, List, map, str_eq, ltb, if◌then◌else◌, ℤ,
}
use taskflow_api.Domain.{Task, User, Int64, Instant, valid}
use taskflow_api.Domain.Errors.{validation, Error, sentinel, wrapf}
use taskflow_api.Text.{byte_length, contains_char}

pub record SignupRequest : Type 0 where
  pub email : String
  pub password : String

pub record LoginRequest : Type 0 where
  pub email : String
  pub password : String

pub record RefreshRequest : Type 0 where
  pub refresh_token : String

pub record LogoutRequest : Type 0 where
  pub refresh_token : String

pub record TaskRequest : Type 0 where
  pub title : String
  pub description : String
  pub status : String
  pub due_date : Option Instant

-- `fmt.Errorf("%w: …", domain.ErrValidation)`
abbrev pub invalid : String → Error
invalid text = wrapf "" (sentinel validation) text

unfoldable pub validate_signup : SignupRequest → Option Error
validate_signup r =
    if not (contains_char b'@' r.email)
    then some (invalid ": email must be valid")
    else if ltb (byte_length r.password) 8
    then some (invalid ": password must be at least 8 characters")
    else none

unfoldable pub validate_login : LoginRequest → Option Error
validate_login r =
    if str_eq r.email "" || str_eq r.password ""
    then some (invalid ": email and password are required")
    else none

unfoldable pub validate_refresh : RefreshRequest → Option Error
validate_refresh r =
    if str_eq r.refresh_token "" then some (invalid ": refresh_token is required") else none

unfoldable pub validate_logout : LogoutRequest → Option Error
validate_logout r =
    if str_eq r.refresh_token "" then some (invalid ": refresh_token is required") else none

unfoldable pub validate_task : TaskRequest → Option Error
validate_task r =
    if str_eq r.title ""
    then some (invalid ": title is required")
    else if not (str_eq r.status "") && not (valid r.status)
    then some (invalid ": status must be one of pending, in_progress, done")
    else none

pub record UserResponse : Type 0 where
  pub id : Int64
  pub email : String

pub record AuthResponse : Type 0 where
  pub token : String
  pub refresh_token : String
  pub user : UserResponse

pub record TokenResponse : Type 0 where
  pub token : String
  pub refresh_token : String

pub record TaskResponse : Type 0 where
  pub id : Int64
  pub title : String
  pub description : String
  pub status : String
  pub due_date : Option Instant
  pub created_at : Instant
  pub updated_at : Instant

pub record TaskListResponse : Type 0 where
  pub data_ : List TaskResponse
  pub total : ℕ
  pub limit : ℤ
  pub offset : ℤ

abbrev pub user_response : User → UserResponse
user_response u = record { id = u.id; email = u.email }

abbrev pub task_response : Task → TaskResponse
task_response t = record {
  id = t.id;
  title = t.title;
  description = t.description;
  status = t.status;
  due_date = t.due_date;
  created_at = t.created_at;
  updated_at = t.updated_at;
}

abbrev pub task_list_response : List Task → ℕ → ℤ → ℤ → TaskListResponse
task_list_response tasks total limit offset = record {
  data_ = map task_response tasks;
  total = total;
  limit = limit;
  offset = offset;
}
