-- ===== src/Seed.antt =====
-- cmd/seed/main.go: the user that the seed command finds or makes.
pub mod Accounts
pub mod Tasks
pub mod Repeats
pub mod Again
pub mod Main
use taskflow_api.Base.{String, if◌then◌else◌}
use taskflow_api.Domain.{User}
use taskflow_api.Domain.Errors.{already_exists, is, Result, ok, err}
use taskflow_api.Store.{World, Io}
use taskflow_api.Repository.Users.{find_by_email}
use taskflow_api.Server.{Deployment, signup}

abbrev user_or_find :
    Deployment → String → Result (User × String × String) × World → Result User × World
user_or_find d email (ok (user, access, refresh), w) = (ok user, w)
user_or_find d email (err e, w) =
    if is e already_exists then find_by_email d.env email w else (err e, w)

-- `getOrCreateUser`
unfoldable pub get_or_create_user : Deployment → String → String → Io User
get_or_create_user d email password w = user_or_find d email (signup d email password w)
