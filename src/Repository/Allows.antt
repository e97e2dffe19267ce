-- ===== src/Repository/Allows.antt =====
-- From the statements to the methods of the repositories, and from the interfaces to the services: a
-- relation that every statement respects is respected by every method of internal/repository and
-- internal/service.
use taskflow_api.Base.{ℕ, String, ◌≡◌, refl, Bool, List, arith, ◌==◌, eq_ℤ}
use taskflow_api.Domain.{Task, User, RefreshToken, Instant, Int64}
use taskflow_api.Store.{Tables, Env, World, rows_affected}
use taskflow_api.Store.Respects.{
  Respects, IsPreorder, Respects-exec, Respects-pure, Respects-return, Respects-raise,
  Respects-map_err, Respects-if, Respects-bind,
}
use taskflow_api.Repository.Interfaces.{
  UserRepository, TaskRepository, RefreshTokenRepository, ListParams,
}
use taskflow_api.Repository.Users
use taskflow_api.Repository.Tasks
use taskflow_api.Repository.RefreshTokens
use taskflow_api.Repository.Users.{insert_user, select_user, user_repository}
use taskflow_api.Repository.Tasks.{
  insert_task, select_task, count_tasks, page_tasks, update_task, delete_task, scan_page,
  query_page, task_repository,
}
use taskflow_api.Repository.RefreshTokens.{
  insert_token, select_token, revoke_where, none_affected, refresh_token_repository,
}

-- What a relation asks of the statements that write users and tokens, and of the other clients.
pub record AllowsAccounts (env : Env) (R : Tables → Tables → Type 0) : Type 0 where
  pub order : IsPreorder R
  pub rely : (n : ℕ) (t : Tables) → R t (env.others n t)
  pub insert_user :
      (email hash : String) (now : Instant) (t : Tables) → R t (insert_user env email hash now t).1
  pub insert_token :
      (k : RefreshToken) (now : Instant) (t : Tables) → R t (insert_token env k now t).1
  pub revoke_where :
      (where_ : RefreshToken → Bool) (now : Instant) (t : Tables)
      → R t (revoke_where where_ now t).1

-- What a relation asks of all the statements that write, and of the other clients.
pub record Allows (env : Env) (R : Tables → Tables → Type 0) : Type 0 where
  pub order : IsPreorder R
  pub rely : (n : ℕ) (t : Tables) → R t (env.others n t)
  pub insert_user :
      (email hash : String) (now : Instant) (t : Tables) → R t (insert_user env email hash now t).1
  pub insert_task : (k : Task) (now : Instant) (t : Tables) → R t (insert_task env k now t).1
  pub update_task : (k : Task) (now : Instant) (t : Tables) → R t (update_task env k now t).1
  pub delete_task : (id : Int64) (now : Instant) (t : Tables) → R t (delete_task id now t).1
  pub insert_token :
      (k : RefreshToken) (now : Instant) (t : Tables) → R t (insert_token env k now t).1
  pub revoke_where :
      (where_ : RefreshToken → Bool) (now : Instant) (t : Tables)
      → R t (revoke_where where_ now t).1

pub accounts_of : (env : Env) {R : Tables → Tables → Type 0} → Allows env R → AllowsAccounts env R
accounts_of env a = record {
  order = a.order;
  rely = a.rely;
  insert_user = a.insert_user;
  insert_token = a.insert_token;
  revoke_where = a.revoke_where;
}

-- What a relation asks of the interfaces.
pub record AllowsUsers (R : Tables → Tables → Type 0) (r : UserRepository) : Type 0 where
  pub create : (u : User) → Respects R (r.create u)
  pub find_by_email : (email : String) → Respects R (r.find_by_email email)
  pub find_by_id : (id : Int64) → Respects R (r.find_by_id id)

pub record AllowsTasks (R : Tables → Tables → Type 0) (r : TaskRepository) : Type 0 where
  pub create : (k : Task) → Respects R (r.create k)
  pub find_by_id : (id : Int64) → Respects R (r.find_by_id id)
  pub list_by_user : (user_id : Int64) (p : ListParams) → Respects R (r.list_by_user user_id p)
  pub update : (k : Task) → Respects R (r.update k)
  pub delete : (id : Int64) → Respects R (r.delete id)

pub record AllowsTokens (R : Tables → Tables → Type 0) (r : RefreshTokenRepository) : Type 0 where
  pub create : (k : RefreshToken) → Respects R (r.create k)
  pub find_by_hash : (hash : String) → Respects R (r.find_by_hash hash)
  pub revoke : (id : Int64) → Respects R (r.revoke id)
  pub revoke_all_for_user : (user_id : Int64) → Respects R (r.revoke_all_for_user user_id)

rows_affected-Respects :
    (env : Env) {R : Tables → Tables → Type 0} (o : IsPreorder R) (n : ℕ)
    → Respects R (rows_affected env n)
unfolding rows_affected
rows_affected-Respects env o n = Respects-pure o (rows_affected env n) (λ w. refl)

module _ (env : Env) {R : Tables → Tables → Type 0} (a : AllowsAccounts env R) where
  pub users-AllowsUsers : AllowsUsers R (user_repository env)
  unfolding Users.create Users.find_by_email Users.find_by_id select_user
  users-AllowsUsers = record {
    create = λ u.
        Respects-bind a.order _ _
          (Respects-map_err a.order _ _
            (Respects-exec a.order env a.rely _ (a.insert_user u.email u.password_hash)))
          (λ scanned. Respects-return a.order _);
    find_by_email = λ email.
        Respects-map_err a.order _ _
          (Respects-exec a.order env a.rely _ (λ now t. a.order.reflexive t));
    find_by_id = λ id.
        Respects-map_err a.order _ _
          (Respects-exec a.order env a.rely _ (λ now t. a.order.reflexive t));
  }

  affected-Respects : (n : ℕ) → Respects R (λ (w : World). none_affected (rows_affected env n w))
  unfolding rows_affected
  affected-Respects n = Respects-pure a.order _ same
    where
      same : (w : World) → (none_affected (rows_affected env n w)).1.tables ≡ w.tables
      same w = ground arith

  pub tokens-AllowsTokens : AllowsTokens R (refresh_token_repository env)
  unfolding RefreshTokens.create RefreshTokens.find_by_hash RefreshTokens.revoke
      RefreshTokens.revoke_all_for_user select_token
  tokens-AllowsTokens = record {
    create = λ k.
        Respects-bind a.order _ _
          (Respects-map_err a.order _ _ (Respects-exec a.order env a.rely _ (a.insert_token k)))
          (λ scanned. Respects-return a.order _);
    find_by_hash = λ hash.
        Respects-map_err a.order _ _
          (Respects-exec a.order env a.rely _ (λ now t. a.order.reflexive t));
    revoke = λ id.
        Respects-bind a.order _ _
          (Respects-map_err a.order _ _
            (Respects-exec a.order env a.rely _ (a.revoke_where (λ r. eq_ℤ r.id id))))
          affected-Respects;
    revoke_all_for_user = λ user_id.
        Respects-bind a.order _ _
          (Respects-map_err a.order _ _
            (Respects-exec a.order env a.rely _ (a.revoke_where (λ r. eq_ℤ r.user_id user_id))))
          (λ _. Respects-return a.order tt);
  }

module _ (env : Env) {R : Tables → Tables → Type 0} (a : Allows env R) where
  pub users-Allows : AllowsUsers R (user_repository env)
  users-Allows = users-AllowsUsers env (accounts_of env a)

  pub tokens-Allows : AllowsTokens R (refresh_token_repository env)
  tokens-Allows = tokens-AllowsTokens env (accounts_of env a)

  query_page-Respects : (user_id : Int64) (p : ListParams) → Respects R (query_page env user_id p)
  unfolding query_page page_tasks
  query_page-Respects user_id p = record {
    at = λ w.
        (Respects-exec a.order env a.rely (page_tasks env w.step user_id p)
            (λ now t. a.order.reflexive t)).at
          w;
  }

  scan_page-Respects : (rows : List Task) → Respects R (scan_page env rows)
  unfolding scan_page
  scan_page-Respects rows = Respects-pure a.order (scan_page env rows) (λ w. refl)

  pub tasks-Allows : AllowsTasks R (task_repository env)
  unfolding Tasks.create Tasks.find_by_id Tasks.list_by_user Tasks.update Tasks.delete select_task
      count_tasks
  tasks-Allows = record {
    create = λ k.
        Respects-bind a.order _ _
          (Respects-map_err a.order _ _ (Respects-exec a.order env a.rely _ (a.insert_task k)))
          (λ scanned. Respects-return a.order _);
    find_by_id = λ id.
        Respects-map_err a.order _ _
          (Respects-exec a.order env a.rely _ (λ now t. a.order.reflexive t));
    list_by_user = λ user_id p.
        Respects-bind a.order _ _
          (Respects-map_err a.order _ _
            (Respects-exec a.order env a.rely _ (λ now t. a.order.reflexive t)))
          (λ total.
            Respects-bind a.order _ _ (Respects-map_err a.order _ _ (query_page-Respects user_id p))
              (λ rows.
                Respects-bind a.order _ _ (scan_page-Respects rows)
                  (λ tasks. Respects-return a.order _)));
    update = λ k.
        Respects-bind a.order _ _
          (Respects-map_err a.order _ _ (Respects-exec a.order env a.rely _ (a.update_task k)))
          (λ updated_at. Respects-return a.order _);
    delete = λ id.
        Respects-bind a.order _ _
          (Respects-map_err a.order _ _ (Respects-exec a.order env a.rely _ (a.delete_task id)))
          (λ res.
            Respects-bind a.order _ _
              (Respects-map_err a.order _ _ (rows_affected-Respects env a.order res))
              (λ n.
                Respects-if a.order (n == 0) _ _ (Respects-raise a.order _)
                  (Respects-return a.order _)));
  }
