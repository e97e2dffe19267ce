-- ===== src/Repository/Consistency.antt =====
-- The constraints of internal/database/migrations hold of the tables, whatever the repositories do:
-- one lemma for each statement, and one for each method.
use taskflow_api.Base.{
  ℕ, suc, String, ◌≡◌, refl, inl, inr, Bool, true, false, List, [], ◌∷◌, ◌++◌, str_eq, Bool-cases,
  All, All-append, ℤ, pos, eq_ℤ,
}
use taskflow_api.Domain.{Task, User, RefreshToken, Instant, Int64}
use taskflow_api.Sql.{exists_row}
use taskflow_api.Store.{Tables, Env}
use taskflow_api.Sql.Keys.{
  IsTable, IsTable-append, IsTable-skip, IsTable-delete_rows, IsTable-update_rows, Distinct,
  Distinct-append, Distinct-update_rows, exists_row-ne, exists_row-append,
}
use taskflow_api.Sql.Rows.{delete_rows-All, update_rows-All}
use taskflow_api.Store.Respects.{Keeping, Keeping-IsPreorder}
use taskflow_api.Repository.Allows.{Allows}
use taskflow_api.Repository.Users.{insert_user}
use taskflow_api.Repository.Tasks.{insert_task, set_task, update_task, delete_task}
use taskflow_api.Repository.RefreshTokens.{insert_token, revoke_where, set_revoked}

abbrev pub HasUser : List User → ℤ → Type 0
HasUser users id = exists_row (λ u. eq_ℤ u.id id) users ≡ true

-- PRIMARY KEY and BIGSERIAL, UNIQUE, and REFERENCES, of the three tables.
pub record IsConsistent (t : Tables) : Type 0 where
  pub users : IsTable (λ (u : User). u.id) t.next_user t.users
  pub emails : Distinct (λ (u : User). u.email) t.users
  pub tasks : IsTable (λ (k : Task). k.id) t.next_task t.tasks
  pub task_owners : All (λ (k : Task). HasUser t.users k.user_id) t.tasks
  pub tokens : IsTable (λ (r : RefreshToken). r.id) t.next_token t.refresh_tokens
  pub hashes : Distinct (λ (r : RefreshToken). r.token_hash) t.refresh_tokens
  pub token_owners : All (λ (r : RefreshToken). HasUser t.users r.user_id) t.refresh_tokens

HasUser-append_All :
    {A : Type 0} (owner : A → ℤ) (users : List User) (y : User) (xs : List A)
    → All (λ x. HasUser users (owner x)) xs
    → All (λ x. HasUser (users ++ y ∷ []) (owner x)) xs
HasUser-append_All owner users y [] a = tt
HasUser-append_All owner users y (x ∷ xs) (h, a) =
    (exists_row-append (λ u. eq_ℤ u.id (owner x)) users y h, HasUser-append_All owner users y xs a)

-- Adding a user whose e-mail no row has, and using up a value of the sequence.
users_grow :
    (t : Tables) (y : User)
    → y.id ≡ pos t.next_user
    → exists_row (λ u. str_eq u.email y.email) t.users ≡ false
    → IsConsistent t
    → IsConsistent (record t { users = t.users ++ y ∷ []; next_user = suc t.next_user })
users_grow t y e free c = record {
  users = IsTable-append (λ u. u.id) t.next_user t.users y e c.users;
  emails =
      Distinct-append (λ u. u.email) t.users y (exists_row-ne (λ u. u.email) y.email t.users free)
        c.emails;
  tasks = c.tasks;
  task_owners = HasUser-append_All (λ k. k.user_id) t.users y t.tasks c.task_owners;
  tokens = c.tokens;
  hashes = c.hashes;
  token_owners = HasUser-append_All (λ r. r.user_id) t.users y t.refresh_tokens c.token_owners;
}

users_skip : (t : Tables) → IsConsistent t → IsConsistent (record t { next_user = suc t.next_user })
users_skip t c = record {
  users = IsTable-skip (λ u. u.id) t.next_user t.users c.users;
  emails = c.emails;
  tasks = c.tasks;
  task_owners = c.task_owners;
  tokens = c.tokens;
  hashes = c.hashes;
  token_owners = c.token_owners;
}

-- The tasks, given anew.
tasks_change :
    (t : Tables) (next : ℕ) (ks : List Task)
    → IsTable (λ k. k.id) next ks
    → All (λ k. HasUser t.users k.user_id) ks
    → IsConsistent t
    → IsConsistent (record t { tasks = ks; next_task = next })
tasks_change t next ks tasks owners c = record {
  users = c.users;
  emails = c.emails;
  tasks = tasks;
  task_owners = owners;
  tokens = c.tokens;
  hashes = c.hashes;
  token_owners = c.token_owners;
}

-- The refresh tokens, given anew.
tokens_change :
    (t : Tables) (next : ℕ) (rs : List RefreshToken)
    → IsTable (λ r. r.id) next rs
    → Distinct (λ r. r.token_hash) rs
    → All (λ r. HasUser t.users r.user_id) rs
    → IsConsistent t
    → IsConsistent (record t { refresh_tokens = rs; next_token = next })
tokens_change t next rs tokens hashes owners c = record {
  users = c.users;
  emails = c.emails;
  tasks = c.tasks;
  task_owners = c.task_owners;
  tokens = tokens;
  hashes = hashes;
  token_owners = owners;
}

module _ (env : Env) (now : Instant) (t : Tables) (c : IsConsistent t) where
  insert_user-IsConsistent :
      (email hash : String) → IsConsistent (insert_user env email hash now t).1
  unfolding insert_user
  insert_user-IsConsistent email hash =
      elim (Bool-cases (exists_row (λ u. str_eq u.email email) t.users)) [
        | inl taken ↦ rw taken (users_skip t c)
        | inr free ↦ rw free (users_grow t _ refl free c)
      ]

  insert_task-IsConsistent : (k : Task) → IsConsistent (insert_task env k now t).1
  unfolding insert_task
  insert_task-IsConsistent k = elim (Bool-cases (exists_row (λ u. eq_ℤ u.id k.user_id) t.users)) [
    | inl known ↦ rw known (
        tasks_change t (suc t.next_task) _
          (IsTable-append (λ x. x.id) t.next_task t.tasks _ refl c.tasks)
          (All-append (λ x. HasUser t.users x.user_id) t.tasks (_ ∷ []) c.task_owners (known, tt))
          c)
    | inr unknown ↦ rw unknown (
        tasks_change t (suc t.next_task) t.tasks
          (IsTable-skip (λ x. x.id) t.next_task t.tasks c.tasks) c.task_owners c)
  ]

  update_task-IsConsistent : (k : Task) → IsConsistent (update_task env k now t).1
  unfolding update_task
  update_task-IsConsistent k =
      tasks_change t t.next_task _
        (IsTable-update_rows (λ x. x.id) _ (set_task env k now) t.next_task t.tasks (λ x. refl)
          c.tasks)
        (update_rows-All _ (λ x. HasUser t.users x.user_id) (set_task env k now) t.tasks (λ x h. h)
          c.task_owners)
        c

  delete_task-IsConsistent : (id : Int64) → IsConsistent (delete_task id now t).1
  unfolding delete_task
  delete_task-IsConsistent id =
      tasks_change t t.next_task _ (IsTable-delete_rows (λ x. x.id) _ t.next_task t.tasks c.tasks)
        (delete_rows-All _ (λ x. HasUser t.users x.user_id) t.tasks c.task_owners) c

  insert_token-IsConsistent : (k : RefreshToken) → IsConsistent (insert_token env k now t).1
  unfolding insert_token
  insert_token-IsConsistent k =
      elim (Bool-cases (exists_row (λ r. str_eq r.token_hash k.token_hash) t.refresh_tokens)) [
        | inl taken ↦ rw taken skipped
        | inr free ↦ elim (Bool-cases (exists_row (λ u. eq_ℤ u.id k.user_id) t.users)) [
          | inl known ↦
              rw (free, known)
                (tokens_change t (suc t.next_token) _
                  (IsTable-append (λ r. r.id) t.next_token t.refresh_tokens _ refl c.tokens)
                  (Distinct-append (λ r. r.token_hash) t.refresh_tokens _
                    (exists_row-ne (λ r. r.token_hash) k.token_hash t.refresh_tokens free) c.hashes)
                  (All-append (λ r. HasUser t.users r.user_id) t.refresh_tokens (_ ∷ [])
                    c.token_owners (known, tt))
                  c)
          | inr unknown ↦ rw (free, unknown) skipped
        ]
      ]
    where
      skipped : IsConsistent (record t { next_token = suc t.next_token })
      skipped =
          tokens_change t (suc t.next_token) t.refresh_tokens
            (IsTable-skip (λ r. r.id) t.next_token t.refresh_tokens c.tokens) c.hashes
            c.token_owners c

  revoke_where-IsConsistent :
      (where_ : RefreshToken → Bool) → IsConsistent (revoke_where where_ now t).1
  unfolding revoke_where
  revoke_where-IsConsistent where_ =
      tokens_change t t.next_token _
        (IsTable-update_rows (λ r. r.id) _ (set_revoked now) t.next_token t.refresh_tokens
          (λ r. refl) c.tokens)
        (Distinct-update_rows (λ r. r.token_hash) _ (set_revoked now) (λ r. refl) t.refresh_tokens
          c.hashes)
        (update_rows-All _ (λ r. HasUser t.users r.user_id) (set_revoked now) t.refresh_tokens
          (λ r h. h) c.token_owners)
        c

pub IsConsistent-Allows :
    (env : Env)
    → ((n : ℕ) (t : Tables) → IsConsistent t → IsConsistent (env.others n t))
    → Allows env (Keeping IsConsistent)
IsConsistent-Allows env rely = record {
  order = Keeping-IsPreorder IsConsistent;
  rely = rely;
  insert_user = λ email hash now t c. insert_user-IsConsistent env now t c email hash;
  insert_task = λ k now t c. insert_task-IsConsistent env now t c k;
  update_task = λ k now t c. update_task-IsConsistent env now t c k;
  delete_task = λ id now t c. delete_task-IsConsistent env now t c id;
  insert_token = λ k now t c. insert_token-IsConsistent env now t c k;
  revoke_where = λ where_ now t c. revoke_where-IsConsistent env now t c where_;
}
