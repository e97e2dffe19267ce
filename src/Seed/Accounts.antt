-- ===== src/Seed/Accounts.antt =====
-- Running the seed command of cmd/seed/main.go again.
use taskflow_api.Base.{String, ◌≡◌, refl, Bool-cases, inl, inr, true, some, List, str_eq}
use taskflow_api.Domain.{User}
use taskflow_api.Domain.Errors.{ok, is, is_unique_violation}
use taskflow_api.Sql.{exists_row}
use taskflow_api.Sql.Rows.{exists_row-find_row}
use taskflow_api.Store.{World, ◌>>=◌, map_err}
use taskflow_api.Store.Quiet.{IsQuiet, exec_quiet}
use taskflow_api.Repository.Users.{find_by_email, insert_user, select_user}
use taskflow_api.Repository.Users as Rows
use taskflow_api.Repository.Evolution.{user_of}
use taskflow_api.Service.Auth
use taskflow_api.Service.Auth.{hash_password}
use taskflow_api.Server.{Deployment}
use taskflow_api.Seed.{get_or_create_user}

taken :
    (email : String) (us : List User) (u : User)
    → user_of email us ≡ some u
    → exists_row (λ x. str_eq x.email email) us ≡ true
taken email us u h = elim (Bool-cases (exists_row (λ x. str_eq x.email email) us)) [
  | inl e ↦ e
  | inr e ↦ absurd (cc (h, exists_row-find_row (λ x. str_eq x.email email) us e))
]

-- Seeding again finds the user that is there. With the database to itself, a password that bcrypt
-- hashes, and an e-mail that a user has, getOrCreateUser answers that user, and the users, tasks
-- and tokens stay as they were.
pub get_or_create_user-found :
    (d : Deployment) (email password hash : String) (w : World) (u : User)
    → IsQuiet d.env
    → d.crypto.generate_from_password w.step password ≡ ok hash
    → user_of email w.tables.users ≡ some u
    → ((get_or_create_user d email password w).0 ≡ ok u)
      × ((get_or_create_user d email password w).1.tables.users ≡ w.tables.users)
      × ((get_or_create_user d email password w).1.tables.tasks ≡ w.tables.tasks)
      × ((get_or_create_user d email password w).1.tables.refresh_tokens ≡ w.tables.refresh_tokens)
unfolding get_or_create_user Auth.signup hash_password map_err ◌>>=◌ Rows.create insert_user
    Rows.find_by_email select_user is is_unique_violation
get_or_create_user-found d email password hash w u q hashed found =
    rw (hashed, exec_quiet d.env q, taken email w.tables.users u found, exec_quiet d.env q, found)
      (refl, refl, refl, refl)
