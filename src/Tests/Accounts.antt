-- ===== src/Tests/Accounts.antt =====
-- Sessions and accounts at concrete inputs.
use taskflow_api.Base.{
  str_eq, suc, String, ◌≡◌, refl, ◌≢◌, inl, inr, Bool, true, none, some, [], ◌∷◌, str_eq_refl, pos,
  ◌+ℤ◌, eq_ℤ,
}
use taskflow_api.Domain.{Instant, expired, revoked}
use taskflow_api.Domain.Errors.{
  already_exists, invalid_credentials, token_invalid, sentinel, other, is_no_rows,
  is_unique_violation, ok, err,
}
use taskflow_api.Sql.{find_row, count_rows, update_rows, exists_row}
use taskflow_api.Store.{◌>>=◌, return, map_err, time_now, rand_read, exec, rows_affected}
use taskflow_api.Repository.Users
use taskflow_api.Repository.RefreshTokens as TokenRows
use taskflow_api.Repository.RefreshTokens.{set_revoked}
use taskflow_api.Service.Tokens
use taskflow_api.Service.RefreshTokens
use taskflow_api.Service.RefreshTokens.{hash_refresh_token}
use taskflow_api.Service.Auth
use taskflow_api.Service.Auth.{issue_token_pair}
use taskflow_api.Store.Outcomes.{met}
use taskflow_api.Repository.Evolution.{Evolves}
use taskflow_api.Repository.Consistency.{IsConsistent}
use taskflow_api.Server.{
  Deployment, auth_service, logs_in, refreshes, run, signup, login, refresh, logout,
}
use taskflow_api.Server.Runs.{run-IsConsistent, run-Evolves}
use taskflow_api.Server.Sessions.{refresh_single_use, logout_ends_session}
use taskflow_api.Server.Accounts.{login_rejects_alike, signup_then_login}
use taskflow_api.Server.Reuse.{
  FamilyRevoked, looked_up, refresh_rejects_alike, refresh_reuse_revokes_family,
}
use taskflow_api.Server.Rotation.{refresh_rotates}
use taskflow_api.Strconv
use taskflow_api.Http.Answers.{Request}
use taskflow_api.Tests.Identity.{one_token}
use taskflow_api.Tests.Sample.{
  env-IsQuiet, env, crypto, jwt, process, process-Rely, fresh, stocked, spent, token,
  IsConsistent-stocked,
}

-- The definitions that a call of AuthService runs through.
auth_runs : Bool
unfolding Auth.signup Auth.login Auth.check_password Auth.refresh Auth.rotate Auth.revoke_family
    Auth.exchange Auth.spend Auth.logout Auth.hash_password Auth.issue_token_pair Users.create
    Users.find_by_email Users.select_user Users.insert_user Tokens.generate TokenRows.create
    TokenRows.insert_token TokenRows.find_by_hash TokenRows.select_token TokenRows.revoke
    TokenRows.revoke_where TokenRows.revoke_all_for_user rows_affected
    RefreshTokens.generate_refresh_token hash_refresh_token RefreshTokens.hex
    RefreshTokens.base64url map_err ◌>>=◌ exec time_now rand_read exists_row find_row update_rows
    count_rows revoked expired is_no_rows eq_ℤ ◌+ℤ◌ Strconv.format_int
auth_runs = true

refreshed : (refresh process "tok" stocked).0 ≡ ok ("1", "BgfI")
unfolding auth_runs
refreshed = refl

refreshed_twice :
    (refresh process "tok" (refresh process "tok" stocked).1).0 ≡ err (sentinel token_invalid)
unfolding auth_runs
refreshed_twice = refl

logged_out : (logout process "tok" stocked).0 ≡ ok tt
unfolding auth_runs
logged_out = refl

signed_up :
    (signup process "a@b" "password" fresh).0
    ≡ ok (
      record { id = pos 1; email = "a@b"; password_hash = "password"; created_at = pos 1 },
      "1",
      "BAfI",
    )
unfolding auth_runs
signed_up = refl

signed_up_twice : (signup process "a@b" "password" stocked).0 ≡ err (sentinel already_exists)
unfolding auth_runs is_unique_violation
signed_up_twice = refl

run-IsConsistent_example :
    IsConsistent (run process (refreshes "tok" ∷ refreshes "tok" ∷ []) stocked).tables
run-IsConsistent_example =
    run-IsConsistent process (refreshes "tok" ∷ refreshes "tok" ∷ []) stocked (λ n t c. c)
      IsConsistent-stocked

run-Evolves_example :
    Evolves stocked.tables
      (run process (refreshes "tok" ∷ logs_in "a@b" "password" ∷ []) stocked).tables
run-Evolves_example =
    run-Evolves process (refreshes "tok" ∷ logs_in "a@b" "password" ∷ []) stocked process-Rely

refresh_single_use_example :
    (refresh process "tok"
      (run process (logs_in "a@b" "password" ∷ []) (refresh process "tok" stocked).1)).0
    ≢ ok ("1", "x")
refresh_single_use_example =
    refresh_single_use process "tok" stocked ("1", "BgfI") (logs_in "a@b" "password" ∷ [])
      ("1", "x") process-Rely refreshed

logout_ends_session_example :
    (refresh process "tok"
      (run process (logs_in "a@b" "password" ∷ []) (logout process "tok" stocked).1)).0
    ≢ ok ("1", "x")
logout_ends_session_example =
    logout_ends_session process "tok" stocked (logs_in "a@b" "password" ∷ []) ("1", "x")
      process-Rely logged_out

wrong_password :
    crypto.compare_hash_and_password "password" "guess"
    ≡ some (other "hashedPassword is not the hash")
wrong_password = refl

login_rejects_alike_example :
    login process "a@b" "guess" stocked
    ≡ (err (sentinel invalid_credentials), record { tables = met env stocked; step = 1 })
unfolding find_row
login_rejects_alike_example =
    login_rejects_alike process "a@b" "guess" stocked refl (inr (_, refl, (_, wrong_password)))

accepts :
    (hash password : String)
    → hash ≡ password
    → crypto.compare_hash_and_password hash password ≡ none
accepts hash password e = rw (e, str_eq_refl)

signup_then_login_example :
    login process "a@b" "password" (run process [] (signup process "a@b" "password" fresh).1)
    ≡ (issue_token_pair env crypto jwt (auth_service process) (pos 1) >>= λ p. return (
      record { id = pos 1; email = "a@b"; password_hash = "password"; created_at = pos 1 },
      p.0,
      p.1,
    ))
        (record {
          tables = met env (run process [] (signup process "a@b" "password" fresh).1);
          step = suc (run process [] (signup process "a@b" "password" fresh).1).step;
        })
signup_then_login_example =
    signup_then_login process "a@b" "password" fresh _ ("1", "BAfI") [] process-Rely
      (λ salt password hash e. accepts hash password (cc (e))) signed_up refl

refresh_rejects_alike_example : (refresh process "nothing" stocked).0 ≡ err (sentinel token_invalid)
unfolding auth_runs
refresh_rejects_alike_example = refresh_rejects_alike process "nothing" stocked refl refl (inl refl)

refresh_reuse_revokes_family_example :
    ((refresh process "tok" spent).0 ≡ err (sentinel token_invalid))
    × FamilyRevoked
        (pos 1)
        (met env (looked_up process spent)).refresh_tokens
        (refresh process "tok" spent).1.tables.refresh_tokens
unfolding auth_runs
refresh_reuse_revokes_family_example =
    refresh_reuse_revokes_family process "tok" spent (record token { revoked_at = some (pos 0) })
      refl refl refl refl

refresh_rotates_example :
    ((refresh process "tok" stocked).0 ≡ ok ("1", "BgfI"))
    × ((t : Instant) × (find_row
            (λ r. str_eq r.token_hash "746f6b")
            (refresh process "tok" stocked).1.tables.refresh_tokens
          ≡ some (set_revoked t token)))
    × (find_row
          (λ r. str_eq r.token_hash "42676649")
          (refresh process "tok" stocked).1.tables.refresh_tokens
        ≡ some (record {
          id = pos 2;
          user_id = pos 1;
          token_hash = "42676649";
          expires_at = pos 10007;
          revoked_at = none;
          created_at = pos 8;
        }))
unfolding auth_runs
refresh_rotates_example =
    refresh_rotates process "tok" stocked token "1" (6 ∷ 7 ∷ 200 ∷ []) env-IsQuiet
      IsConsistent-stocked refl refl refl refl refl refl

-- A process whose library signs the token that a log-in at once asks for.
abbrev signing : Deployment
signing = record process {
  jwt = one_token (record { subject = "1"; issued_at = pos 1; expires_at = pos 902 });
}

abbrev bearing : Request
bearing = record {
  method = "GET";
  header = λ name. "Bearer token";
  path_value = λ name. "";
  query = λ name. "";
  body = "";
  user_id = none;
  path = "/api/v1/tasks";
  remote_addr = "10.0.0.1:5000";
  tags = [];
  trace_id = none;
  request_id = "id";
}
