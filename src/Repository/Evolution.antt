-- ===== src/Repository/Evolution.antt =====
-- How the tables evolve, whatever the repositories do: users are never changed or removed, and a
-- refresh token keeps its row, in which only revoked_at is ever written, and only once.
use taskflow_api.Base.{
  ℕ, String, ◌≡◌, refl, ◌∙◌, ◌⊎◌, inl, inr, Bool, false, not, ◌&&◌, Option, some, List, [], ◌∷◌,
  ◌++◌, arith, str_eq, if◌then◌else◌, Bool-cases, eq_ℤ,
}
use taskflow_api.Domain.{Task, User, RefreshToken, Instant, revoked}
use taskflow_api.Sql.{find_row, update_rows, exists_row}
use taskflow_api.Store.{Tables, Env}
use taskflow_api.Store.Respects.{IsPreorder}
use taskflow_api.Sql.Rows.{find_row-append, find_row-update_rows, exists_row-find_row}
use taskflow_api.Repository.Users.{insert_user}
use taskflow_api.Repository.Tasks.{insert_task, update_task, delete_task}
use taskflow_api.Repository.RefreshTokens.{insert_token, revoke_where, set_revoked}
use taskflow_api.Repository.Allows.{Allows}

-- The row of a refresh token at two moments: it is the same, or it was revoked in between.
abbrev pub Later : RefreshToken → RefreshToken → Type 0
Later r r' = (r' ≡ r) ⊎ ((now : Instant) × (revoked r ≡ false) × (r' ≡ set_revoked now r))

abbrev pub user_of : String → List User → Option User
user_of email = find_row (λ u. str_eq u.email email)

abbrev pub token_of : String → List RefreshToken → Option RefreshToken
token_of hash = find_row (λ r. str_eq r.token_hash hash)

pub record Evolves (t u : Tables) : Type 0 where
  pub user_kept :
      (email : String) (x : User) → user_of email t.users ≡ some x → user_of email u.users ≡ some x
  pub token_kept :
      (hash : String) (r : RefreshToken)
      → token_of hash t.refresh_tokens ≡ some r
      → (r' : RefreshToken) × (token_of hash u.refresh_tokens ≡ some r') × Later r r'

Later-trans : (a b c : RefreshToken) → Later a b → Later b c → Later a c
Later-trans a b c (inl e) (inl f) = inl (f ∙ e)
Later-trans a b c (inl e) (inr (now, live, f)) = inr (now, rw e at live, rw e at f)
Later-trans a b c (inr (now, live, e)) (inl f) = inr (now, live, f ∙ e)
Later-trans a b c (inr (now, live, e)) (inr (now', live', f)) = absurd (still (rw e at live'))
  where
    still : revoked (set_revoked now a) ≡ false → ⊥
    still h = unfold revoked in cc h

pub Evolves-IsPreorder : IsPreorder Evolves
Evolves-IsPreorder = record {
  reflexive = λ t. record { user_kept = λ email x h. h; token_kept = λ hash r h. (r, h, inl refl) };
  transitive = λ t u v f g. record {
    user_kept = λ email x h. g.user_kept email x (f.user_kept email x h);
    token_kept = λ hash r h.
        let (r', h', l) = f.token_kept hash r h in
        let (r'', h'', l') = g.token_kept hash r' h' in (r'', h'', Later-trans r r' r'' l l');
  };
}

-- Tables with the same users and tokens, but for the users and tokens appended.
grown :
    (t u : Tables)
    → ((email : String) (x : User)
        → user_of email t.users ≡ some x
        → user_of email u.users ≡ some x)
    → ((hash : String) (r : RefreshToken)
        → token_of hash t.refresh_tokens ≡ some r
        → token_of hash u.refresh_tokens ≡ some r)
    → Evolves t u
grown t u users tokens = record {
  user_kept = users;
  token_kept = λ hash r h. (r, tokens hash r h, inl refl);
}

-- A row that is found is still found when another is appended.
pub find_row-grown :
    {A : Type 0} (p : A → Bool) (xs : List A) (y x : A)
    → find_row p xs ≡ some x
    → find_row p (xs ++ y ∷ []) ≡ some x
find_row-grown p xs y x h = elim (Bool-cases (exists_row p xs)) [
  | inl e ↦ rw (find_row-append, e) h
  | inr e ↦ cc (exists_row-find_row p xs e)
]

-- The lookup of a token under a hash, after some tokens were revoked.
pub token_of-revoked :
    (where_ : RefreshToken → Bool) (now : Instant) (hash : String) (rs : List RefreshToken)
    (r : RefreshToken)
    → token_of hash rs ≡ some r
    → token_of hash (update_rows (λ x. where_ x && not (revoked x)) (set_revoked now) rs)
      ≡ some (if where_ r && not (revoked r) then set_revoked now r else r)
token_of-revoked where_ now hash rs r h = rw (
  find_row-update_rows (λ x. where_ x && not (revoked x)) (λ x. str_eq x.token_hash hash)
      (set_revoked now) rs (λ x. refl),
  h,
)

Later-if :
    (b : Bool) (now : Instant) (r : RefreshToken)
    → Later r (if b && not (revoked r) then set_revoked now r else r)
Later-if b now r = elim (Bool-cases (b && not (revoked r))) [
  | inl e ↦ rw e (inr (now, ground arith, refl))
  | inr e ↦ rw e (inl refl)
]

module _ (env : Env) (now : Instant) (t : Tables) where
  insert_user-Evolves : (email hash : String) → Evolves t (insert_user env email hash now t).1
  unfolding insert_user
  insert_user-Evolves email hash =
      elim (Bool-cases (exists_row (λ u. str_eq u.email email) t.users)) [
        | inl taken ↦ rw taken (grown t _ (λ e x h. h) (λ h r e. e))
        | inr free ↦
            rw free (
              grown t _ (λ e x h. find_row-grown (λ u. str_eq u.email e) t.users _ x h)
                (λ h r e. e))
      ]

  insert_task-Evolves : (k : Task) → Evolves t (insert_task env k now t).1
  unfolding insert_task
  insert_task-Evolves k = elim (Bool-cases (exists_row (λ u. eq_ℤ u.id k.user_id) t.users)) [
    | inl known ↦ rw known (grown t _ (λ e x h. h) (λ h r e. e))
    | inr unknown ↦ rw unknown (grown t _ (λ e x h. h) (λ h r e. e))
  ]

  insert_token-Evolves : (k : RefreshToken) → Evolves t (insert_token env k now t).1
  unfolding insert_token
  insert_token-Evolves k =
      elim (Bool-cases (exists_row (λ r. str_eq r.token_hash k.token_hash) t.refresh_tokens)) [
        | inl taken ↦ rw taken (grown t _ (λ e x h. h) (λ h r e. e))
        | inr free ↦ elim (Bool-cases (exists_row (λ u. eq_ℤ u.id k.user_id) t.users)) [
          | inl known ↦
              rw (free, known)
                (grown t _ (λ e x h. h)
                  (λ h r e. find_row-grown (λ x. str_eq x.token_hash h) t.refresh_tokens _ r e))
          | inr unknown ↦ rw (free, unknown) (grown t _ (λ e x h. h) (λ h r e. e))
        ]
      ]

  revoke_where-Evolves : (where_ : RefreshToken → Bool) → Evolves t (revoke_where where_ now t).1
  unfolding revoke_where
  revoke_where-Evolves where_ = record {
    user_kept = λ e x h. h;
    token_kept = λ hash r h.
        (_, token_of-revoked where_ now hash t.refresh_tokens r h, Later-if (where_ r) now r);
  }

pub Evolves-Allows :
    (env : Env) → ((n : ℕ) (t : Tables) → Evolves t (env.others n t)) → Allows env Evolves
unfolding update_task delete_task
Evolves-Allows env rely = record {
  order = Evolves-IsPreorder;
  rely = rely;
  insert_user = λ email hash now t. insert_user-Evolves env now t email hash;
  insert_task = λ k now t. insert_task-Evolves env now t k;
  update_task = λ k now t. grown t _ (λ e x h. h) (λ h r e. e);
  delete_task = λ id now t. grown t _ (λ e x h. h) (λ h r e. e);
  insert_token = λ k now t. insert_token-Evolves env now t k;
  revoke_where = λ where_ now t. revoke_where-Evolves env now t where_;
}
