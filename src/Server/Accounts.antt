-- ===== src/Server/Accounts.antt =====
-- Accounts: what Signup and Login of auth_service.go answer, under any faults.
use taskflow_api.Base.{
  ℕ, suc, String, ◌≡◌, sym, ap, ◌∙◌, ◌⊎◌, inl, inr, none, some, List, arith, str_eq, str_eq_refl,
  Bool-cases, pos,
}
use taskflow_api.Domain.{User, Instant, Int64, done}
use taskflow_api.Domain.Errors.{
  invalid_credentials, Error, sentinel, pg_error, is_no_rows, Result, ok, err,
}
use taskflow_api.Sql.{exists_row}
use taskflow_api.Store.{Tables, Env, works, World, ◌>>=◌, return, map_err, exec}
use taskflow_api.Store.Outcomes.{met, bind-ok, map_err-ok, map_err-world, exec-ok, exec_works}
use taskflow_api.Sql.Rows.{find_row-append}
use taskflow_api.Repository.Users
use taskflow_api.Repository.Users.{insert_user, select_user}
use taskflow_api.Repository.Allows.{tokens-Allows}
use taskflow_api.Repository.Evolution.{Evolves-IsPreorder, Evolves-Allows, user_of}
use taskflow_api.Service.Allows.{issue_token_pair-Respects}
use taskflow_api.Service.RefreshTokens.{Crypto}
use taskflow_api.Service.Auth
use taskflow_api.Service.Auth.{issue_token_pair, hash_password, check_password}
use taskflow_api.Server.{Deployment, auth_service, Call, run, signup, login}
use taskflow_api.Server.Runs.{run-Evolves}
use taskflow_api.Server.Sessions.{Rely}

-- There is no user with this e-mail, or the password does not fit its hash.
abbrev pub IsBadLogin : Deployment → String → String → Tables → Type 0
IsBadLogin d email password t =
    (user_of email t.users ≡ none)
    ⊎ ((u : User) × (user_of email t.users ≡ some u)
        × ((e : Error) × (d.crypto.compare_hash_and_password u.password_hash password ≡ some e)))

find_by_email_works :
    (env : Env) (email : String) (w : World)
    → env.fault w.step ≡ works
    → exec env (select_user (λ u. str_eq u.email email)) w ≡ (
      Users.one_row (user_of email (met env w).users),
      record { tables = met env w; step = suc w.step },
    )
unfolding select_user
find_by_email_works env email w h = exec_works env (select_user (λ u. str_eq u.email email)) w h

-- An unknown e-mail and a wrong password are answered alike: if the lookup works, the answer is
-- ErrInvalidCredentials, after the same number of effects, and no table is changed.
pub login_rejects_alike :
    (d : Deployment) (email password : String) (w : World)
    → d.env.fault w.step ≡ works
    → IsBadLogin d email password (met d.env w)
    → login d email password w
      ≡ (err (sentinel invalid_credentials), record { tables = met d.env w; step = suc w.step })
unfolding Auth.login Auth.check_password Users.find_by_email map_err ◌>>=◌ is_no_rows
login_rejects_alike d email password w h (inl unknown) =
    rw (find_by_email_works d.env email w h, unknown)
login_rejects_alike d email password w h (inr (u, found, (e, differs))) =
    rw (find_by_email_works d.env email w h, found) (ground (arith, differs))

-- bcrypt accepts a password against each hash that it generated from it.
abbrev pub IsBcrypt : Crypto → Type 0
IsBcrypt c =
    (salt : ℕ) (password hash : String)
    → c.generate_from_password salt password ≡ ok hash
    → c.compare_hash_and_password hash password ≡ none

-- A user that is inserted is found under its e-mail, with the hash that was given.
insert_user-ok :
    (env : Env) (email hash : String) (now : Instant) (t : Tables) (scanned : Int64 × Instant)
    → (insert_user env email hash now t).0 ≡ ok scanned
    → user_of email (insert_user env email hash now t).1.users
      ≡ some
          (record { id = scanned.0; email = email; password_hash = hash; created_at = scanned.1 })
unfolding insert_user
insert_user-ok env email hash now t scanned h =
    elim (Bool-cases (exists_row (λ u. str_eq u.email email) t.users)) [
      | inl taken ↦ absurd (not_ok (rw taken at h))
      | inr free ↦
          rw (free, find_row-append, free, str_eq_refl) (ap some (same scanned (rw free at h)))
    ]
  where
    not_ok : err (pg_error "23505" (env.message "23505")) ≡ ok scanned → ⊥
    not_ok e = cc

    same :
        (s : Int64 × Instant)
        → ok (pos t.next_user, now) ≡ ok s
        → ◌≡◌ {A = User}
            (record { id = pos t.next_user; email = email; password_hash = hash; created_at = now })
            (record { id = s.0; email = email; password_hash = hash; created_at = s.1 })
    same s e = ground arith

create-ok :
    (env : Env) (u x : User) (w : World)
    → (Users.create env u w).0 ≡ ok x
    → (user_of u.email (Users.create env u w).1.tables.users ≡ some x)
      × (x.password_hash ≡ u.password_hash)
unfolding Users.create
create-ok env u x w h =
    let (scanned, done, same) = bind-ok _ _ w x h in
    let (inserted, world) =
      exec-ok env (insert_user env u.email u.password_hash) w scanned
        (map_err-ok _ _ w scanned done) in
    let row : record u { id = scanned.0; created_at = scanned.1 } ≡ x =
      result_inj (ap (λ p. p.0) (sym same) ∙ h) in
    (
      rw (same, map_err-world, world)
          (insert_user-ok env u.email u.password_hash _ _ scanned inserted ∙ ap some row),
      ap (λ (v : User). v.password_hash) (sym row),
    )
  where
    result_inj : {a b : User} → ok a ≡ ok b → a ≡ b
    result_inj e = cc

module _ (d : Deployment) (rely : Rely d) where
  -- A signup that succeeds leaves its user to be found, with a hash of the password.
  signup-ok :
      (email password : String) (w : World) (u : User) (pair : String × String)
      → (signup d email password w).0 ≡ ok (u, pair.0, pair.1)
      → (user_of email (signup d email password w).1.tables.users ≡ some u)
        × ((salt : ℕ) × (d.crypto.generate_from_password salt password ≡ ok u.password_hash))
  unfolding Auth.signup hash_password
  signup-ok email password w u pair h =
      let (hash, hashed, same) = bind-ok _ _ w (u, pair.0, pair.1) h in
      let (x, created, same') = bind-ok _ _ _ (u, pair.0, pair.1) (ap (λ p. p.0) (sym same) ∙ h) in
      let (p, issued, same'') =
        bind-ok _ _ _ (u, pair.0, pair.1) (ap (λ p. p.0) (sym (same ∙ same')) ∙ h) in
      let (found, hash') = create-ok d.env _ x _ created in
      let user : x ≡ u = first x u p pair (ap (λ p. p.0) (sym (same ∙ same' ∙ same'')) ∙ h) in
      let kept =
        ((issue_token_pair-Respects Evolves-IsPreorder d.env d.crypto d.jwt (auth_service d)
              (tokens-Allows d.env (Evolves-Allows d.env rely)) x.id).at
            _).user_kept
          email x found in
      (
        rw (same ∙ same' ∙ same'') (kept ∙ ap some user),
        (
          w.step,
          map_err-ok _ (hash_password d.env d.crypto d.jwt (auth_service d) password) w hash hashed
              ∙ ap ok (sym hash' ∙ ap (λ (v : User). v.password_hash) user),
        ),
      )
    where
      first :
          (x u : User) (p q : String × String)
          → ◌≡◌ {A = Result (User × String × String)} (ok (x, p.0, p.1)) (ok (u, q.0, q.1))
          → x ≡ u
      first x u p q e = cc

-- If the other clients of the database only append users and tokens and only revoke tokens, and bcrypt
-- accepts a password against each hash that it generated from it, then after a Signup that
-- succeeded, and whatever calls come after it, a Login with the same e-mail and
-- password whose lookup works passes the check of the password: it goes on to issue a token pair
-- for the user that Signup returned.
pub signup_then_login :
    (d : Deployment) (email password : String) (w : World) (u : User) (pair : String × String)
    (cs : List Call)
    → Rely d
    → IsBcrypt d.crypto
    → (signup d email password w).0 ≡ ok (u, pair.0, pair.1)
    → d.env.fault (run d cs (signup d email password w).1).step ≡ works
    → login d email password (run d cs (signup d email password w).1)
      ≡ (issue_token_pair d.env d.crypto d.jwt (auth_service d) u.id >>= λ p. return (u, p.0, p.1))
          (record {
            tables = met d.env (run d cs (signup d email password w).1);
            step = suc (run d cs (signup d email password w).1).step;
          })
unfolding Auth.login Auth.check_password Users.find_by_email map_err ◌>>=◌
signup_then_login d email password w u pair cs rely law h quiet =
    let (found, (salt, hashed)) = signup-ok d rely email password w u pair h in
    let v = run d cs (signup d email password w).1 in
    let kept =
      (rely v.step v.tables).user_kept email u
        ((run-Evolves d cs (signup d email password w).1 rely).user_kept email u found) in
    rw (
      find_by_email_works d.env email v quiet,
      kept,
      check_password,
      law salt password u.password_hash hashed,
    )
