-- ===== src/Domain.antt =====
-- internal/domain: the entities, the sentinel errors and what the code asks of a Go error value.
pub mod Errors
use taskflow_api.Base.{
  zero, ◌-◌, String, Bool, true, false, not, ◌||◌, Option, none, some, str_eq, ℤ, pos, negsuc,
  ltb_ℤ,
}

-- int64 identifiers, and instants in nanoseconds since the epoch of Unix.
abbrev pub Int64 : Type 0
Int64 = ℤ

abbrev pub Instant : Type 0
Instant = ℤ

abbrev pub TaskStatus : Type 0
TaskStatus = String

abbrev pub pending : TaskStatus
pending = "pending"

abbrev pub in_progress : TaskStatus
in_progress = "in_progress"

abbrev pub done : TaskStatus
done = "done"

unfoldable pub valid : TaskStatus → Bool
valid s = str_eq s pending || str_eq s in_progress || str_eq s done

pub record Task : Type 0 where
  pub id : Int64
  pub user_id : Int64
  pub title : String
  pub description : String
  pub status : TaskStatus
  pub due_date : Option Instant
  pub created_at : Instant
  pub updated_at : Instant

pub record User : Type 0 where
  pub id : Int64
  pub email : String
  pub password_hash : String
  pub created_at : Instant

pub record RefreshToken : Type 0 where
  pub id : Int64
  pub user_id : Int64
  pub token_hash : String
  pub expires_at : Instant
  pub revoked_at : Option Instant
  pub created_at : Instant

-- `time.Now()` is the argument.
unfoldable pub expired : RefreshToken → Instant → Bool
expired t now = ltb_ℤ t.expires_at now

unfoldable pub revoked : RefreshToken → Bool
revoked t = elim t.revoked_at [ none ↦ false | some _ ↦ true ]

-- The zero values that a Go composite literal leaves in the fields it does not name: 0, and the
-- zero `time.Time`, which is midnight of the first of January of the year 1.
abbrev pub zero_id : Int64
zero_id = pos 0

abbrev pub zero_time : Instant
zero_time = negsuc 62135596799999999999
