-- ===== src/Repository/Users.antt =====
-- internal/repository/user_repository.go, with the table users of migrations/0001_init.sql.
use taskflow_api.Base.{
  suc, String, Bool, Option, none, some, [], ◌∷◌, ◌++◌, str_eq, if◌then◌else◌, pos, eq_ℤ,
}
use taskflow_api.Domain.{User, Instant, Int64}
use taskflow_api.Domain.Errors.{
  not_found, already_exists, Error, sentinel, no_rows, pg_error, is_no_rows, is_unique_violation,
  Result, ok, err,
}
use taskflow_api.Sql.{find_row, exists_row}
use taskflow_api.Store.{Env, Io, ◌>>=◌, return, map_err, wrap, Statement, exec}
use taskflow_api.Repository.Interfaces.{UserRepository}

-- A query for one row answers `sql.ErrNoRows` where there is none.
abbrev pub one_row : {A : Type 0} → Option A → Result A
one_row none = err no_rows
one_row (some a) = ok a

-- INSERT INTO users (email, password_hash) … RETURNING id, created_at. The column email is UNIQUE,
-- and a refused insertion has used up a value of the sequence.
unfoldable pub insert_user : Env → String → String → Statement (Int64 × Instant)
insert_user env email hash now t =
    let t' = record t { next_user = suc t.next_user } in
    let row : User = record {
      id = pos t.next_user;
      email = email;
      password_hash = hash;
      created_at = now;
    } in
    if exists_row (λ u. str_eq u.email email) t.users
    then (err (pg_error "23505" (env.message "23505")), t')
    else (ok (pos t.next_user, now), record t' { users = t.users ++ row ∷ [] })

unfoldable pub select_user : (User → Bool) → Statement User
select_user where_ now t = (one_row (find_row where_ t.users), t)

-- `isUniqueViolation` decides between the sentinel and the wrapped error.
abbrev insert_error : Error → Error
insert_error e = if is_unique_violation e then sentinel already_exists else wrap "insert user: " e

-- `errors.Is(err, sql.ErrNoRows)` decides between the sentinel and the wrapped error.
abbrev pub find_error : String → Error → Error
find_error text e = if is_no_rows e then sentinel not_found else wrap text e

module _ (env : Env) where
  unfoldable pub create : User → Io User
  create u = do
    scanned ← map_err insert_error (exec env (insert_user env u.email u.password_hash))
    return (record u { id = scanned.0; created_at = scanned.1 })

  unfoldable pub find_by_email : String → Io User
  find_by_email email =
      map_err (find_error "find user by email: ")
        (exec env (select_user (λ u. str_eq u.email email)))

  unfoldable pub find_by_id : Int64 → Io User
  find_by_id id =
      map_err (find_error "find user by id: ") (exec env (select_user (λ u. eq_ℤ u.id id)))

  -- `NewUserRepository`
  abbrev pub user_repository : UserRepository
  user_repository = record {
    create = create;
    find_by_email = find_by_email;
    find_by_id = find_by_id;
  }
