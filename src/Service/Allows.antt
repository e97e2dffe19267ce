-- ===== src/Service/Allows.antt =====
-- The services respect every relation that the repositories behind their interfaces respect.
use taskflow_api.Base.{ℕ, String, refl, inl, inr, Option, Option-cases, ℤ}
use taskflow_api.Domain.{User, RefreshToken, Instant, Int64, TaskStatus}
use taskflow_api.Store.{Tables, Env, time_now, rand_read}
use taskflow_api.Store.Respects.{
  Respects, IsPreorder, Respects-pure, Respects-return, Respects-raise, Respects-map_err,
  Respects-if, Respects-bind,
}
use taskflow_api.Repository.Allows.{AllowsUsers, AllowsTasks, AllowsTokens}
use taskflow_api.Service.Tasks
use taskflow_api.Service.Tasks.{TaskService}
use taskflow_api.Service.Tokens.{Jwt, generate}
use taskflow_api.Service.RefreshTokens.{Crypto, generate_refresh_token}
use taskflow_api.Service.Auth
use taskflow_api.Service.Auth.{
  AuthService, issue_token_pair, hash_password, check_password, revoke_family, spend, exchange,
  rotate,
}

module _ {R : Tables → Tables → Type 0} (o : IsPreorder R) where
  module _ (s : TaskService) (a : AllowsTasks R s.tasks) where
    pub create-Respects :
        (user_id : Int64) (title description : String) (due_date : Option Instant)
        → Respects R (Tasks.create s user_id title description due_date)
    unfolding Tasks.create
    create-Respects user_id title description due_date = a.create _

    pub list-Respects :
        (user_id : Int64) (status : TaskStatus) (limit offset : ℤ)
        → Respects R (Tasks.list s user_id status limit offset)
    unfolding Tasks.list
    list-Respects user_id status limit offset =
        Respects-bind o _ _ (a.list_by_user user_id _) (λ found. Respects-return o _)

    pub get-Respects : (user_id task_id : Int64) → Respects R (Tasks.get s user_id task_id)
    unfolding Tasks.get
    get-Respects user_id task_id =
        Respects-bind o _ _ (a.find_by_id task_id)
          (λ k. Respects-if o _ _ _ (Respects-return o k) (Respects-raise o _))

    pub update-Respects :
        (user_id task_id : Int64) (title description : String) (status : TaskStatus)
        (due_date : Option Instant)
        → Respects R (Tasks.update s user_id task_id title description status due_date)
    unfolding Tasks.update
    update-Respects user_id task_id title description status due_date =
        Respects-bind o _ _ (get-Respects user_id task_id)
          (λ k. Respects-if o _ _ _ (a.update _) (Respects-raise o _))

    pub delete-Respects : (user_id task_id : Int64) → Respects R (Tasks.delete s user_id task_id)
    unfolding Tasks.delete
    delete-Respects user_id task_id =
        Respects-bind o _ _ (get-Respects user_id task_id) (λ _. a.delete task_id)

  module _ (env : Env) (crypto : Crypto) (jwt : Jwt) (s : AuthService) where
    time_now-Respects : Respects R (time_now env)
    unfolding time_now
    time_now-Respects = Respects-pure o (time_now env) (λ w. refl)

    rand_read-Respects : (n : ℕ) → Respects R (rand_read env n)
    unfolding rand_read
    rand_read-Respects n = Respects-pure o (rand_read env n) (λ w. refl)

    generate-Respects : (user_id : Int64) → Respects R (generate env jwt s.tokens user_id)
    unfolding generate
    generate-Respects user_id =
        Respects-bind o _ _ time_now-Respects
          (λ issued. Respects-bind o _ _ time_now-Respects (λ now. Respects-pure o _ (λ w. refl)))

    generate_refresh_token-Respects : Respects R (generate_refresh_token env crypto)
    unfolding generate_refresh_token
    generate_refresh_token-Respects =
        Respects-bind o _ _ (Respects-map_err o _ _ (rand_read-Respects 32))
          (λ buf. Respects-return o _)

    hash_password-Respects :
        (password : String) → Respects R (hash_password env crypto jwt s password)
    unfolding hash_password
    hash_password-Respects password = Respects-pure o _ (λ w. refl)

    module _ (tokens : AllowsTokens R s.refresh_tokens) where
      pub issue_token_pair-Respects :
          (user_id : Int64) → Respects R (issue_token_pair env crypto jwt s user_id)
      unfolding issue_token_pair
      issue_token_pair-Respects user_id =
          Respects-bind o _ _ (Respects-map_err o _ _ (generate-Respects user_id)) (λ access.
            Respects-bind o _ _ generate_refresh_token-Respects (λ pair.
              Respects-bind o _ _ time_now-Respects (λ now.
                Respects-bind o _ _ (Respects-map_err o _ _ (tokens.create _))
                  (λ _. Respects-return o _))))

      spend-Respects : (existing : RefreshToken) → Respects R (spend env crypto jwt s existing)
      unfolding spend
      spend-Respects existing =
          Respects-bind o _ _ (Respects-map_err o _ _ (tokens.revoke existing.id))
            (λ _. issue_token_pair-Respects existing.user_id)

      rotate-Respects : (existing : RefreshToken) → Respects R (rotate env crypto jwt s existing)
      unfolding rotate revoke_family exchange
      rotate-Respects existing =
          Respects-if o _ _ _
            (Respects-bind o _ _
              (Respects-map_err o _ _ (tokens.revoke_all_for_user existing.user_id))
              (λ _. Respects-raise o _))
            (Respects-bind o _ _ time_now-Respects
              (λ now. Respects-if o _ _ _ (Respects-raise o _) (spend-Respects existing)))

      pub refresh-Respects :
          (plaintext : String) → Respects R (Auth.refresh env crypto jwt s plaintext)
      unfolding Auth.refresh
      refresh-Respects plaintext =
          Respects-bind o _ _ (Respects-map_err o _ _ (tokens.find_by_hash _))
            (λ existing. rotate-Respects existing)

      pub logout-Respects :
          (plaintext : String) → Respects R (Auth.logout env crypto jwt s plaintext)
      unfolding Auth.logout
      logout-Respects plaintext =
          Respects-bind o _ _ (Respects-map_err o _ _ (tokens.find_by_hash _))
            (λ existing. Respects-if o _ _ _ (Respects-return o tt) (tokens.revoke existing.id))

      module _ (users : AllowsUsers R s.users) where
        pub signup-Respects :
            (email password : String) → Respects R (Auth.signup env crypto jwt s email password)
        unfolding Auth.signup
        signup-Respects email password =
            Respects-bind o _ _ (Respects-map_err o _ _ (hash_password-Respects password)) (λ hash.
              Respects-bind o _ _ (users.create _) (λ user.
                Respects-bind o _ _ (issue_token_pair-Respects user.id)
                  (λ pair. Respects-return o _)))

        check_password-Respects :
            (password : String) (user : User)
            → Respects R (check_password env crypto jwt s password user)
        unfolding check_password
        check_password-Respects password user =
            elim (Option-cases (crypto.compare_hash_and_password user.password_hash password)) [
              | inl same ↦
                  rw (same, check_password)
                    (Respects-bind o _ _ (issue_token_pair-Respects user.id)
                      (λ pair. Respects-return o _))
              | inr (e, differs) ↦ rw (differs, check_password) (Respects-raise o _)
            ]

        pub login-Respects :
            (email password : String) → Respects R (Auth.login env crypto jwt s email password)
        unfolding Auth.login
        login-Respects email password =
            Respects-bind o _ _ (Respects-map_err o _ _ (users.find_by_email email))
              (λ user. check_password-Respects password user)
