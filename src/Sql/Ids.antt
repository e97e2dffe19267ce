-- ===== src/Sql/Ids.antt =====
-- Lookups by a primary key, before and after a statement.
use taskflow_api.Base.{
  ℕ, ◌≡◌, refl, ap, ◌∙◌, ◌⊎◌, inl, inr, true, false, none, some, List, [], ◌∷◌, ◌++◌, arith,
  if◌then◌else◌, Bool-cases, Option-cases, All, ℤ, pos, negsuc, eq_ℤ, eq_ℤ_iff, eq_ℤ_refl,
}
use taskflow_api.Sql.{find_row, delete_rows, update_rows, exists_row}
use mathlib.Core.Option
use taskflow_api.Sql.Rows.{
  find_row-append, find_row-update_rows, exists_row-find_row, find_row-delete_rows_ne,
  find_row-delete_rows_self,
}
use taskflow_api.Sql.Keys.{IsBelow}

module _ {ℓ} {A : Type ℓ} (id : A → ℤ) where
  -- The row found under an id has that id.
  pub find_row-id :
      (k : ℤ) (xs : List A) (x : A) → find_row (λ r. eq_ℤ (id r) k) xs ≡ some x → id x ≡ k
  unfolding find_row
  find_row-id k [] x h = cc
  find_row-id k (y ∷ xs) x h = ground (arith, eq_ℤ_iff (id y) k, find_row-id k xs x)

  -- No row has the id that the sequence gives next.
  pub find_row-next :
      (next : ℕ) (xs : List A)
      → All (λ x. IsBelow next (id x)) xs
      → exists_row (λ r. eq_ℤ (id r) (pos next)) xs ≡ false
  unfolding exists_row
  find_row-next next [] a = refl
  find_row-next next (x ∷ xs) (b, a) = elim (Bool-cases (eq_ℤ (id x) (pos next))) [
    | inl e ↦ absurd (IsBelow_self next (id x) ((eq_ℤ_iff (id x) (pos next)).0 e) b)
    | inr e ↦ rw e (find_row-next next xs a)
  ]
    where
      IsBelow_self : (n : ℕ) (k : ℤ) → k ≡ pos n → IsBelow n k → ⊥
      IsBelow_self n (pos m) e b = ground arith
      IsBelow_self n (negsuc m) e b = b

  -- A table as a map from ids to rows: an UPDATE of one id, a DELETE and an INSERT.
  pub find_row-update_id :
      (set : A → A) (k j : ℤ) (xs : List A) (x : A)
      → ((y : A) → id (set y) ≡ id y)
      → find_row (λ r. eq_ℤ (id r) k) xs ≡ some x
      → find_row (λ r. eq_ℤ (id r) j) (update_rows (λ r. eq_ℤ (id r) k) set xs)
        ≡ (if eq_ℤ j k then some (set x) else find_row (λ r. eq_ℤ (id r) j) xs)
  find_row-update_id set k j xs x same found =
      find_row-update_rows (λ r. eq_ℤ (id r) k) (λ r. eq_ℤ (id r) j) set xs
        (λ y. ap (λ i. eq_ℤ i j) (same y))
      ∙ at (Bool-cases (eq_ℤ j k)) (Option-cases (find_row (λ r. eq_ℤ (id r) j) xs))
    where
      at :
          ((eq_ℤ j k ≡ true) ⊎ (eq_ℤ j k ≡ false))
          → (find_row (λ r. eq_ℤ (id r) j) xs ≡ none)
            ⊎ ((y : A) × (find_row (λ r. eq_ℤ (id r) j) xs ≡ some y))
          → Option.map (λ y. if eq_ℤ (id y) k then set y else y) (find_row (λ r. eq_ℤ (id r) j) xs)
            ≡ (if eq_ℤ j k then some (set x) else find_row (λ r. eq_ℤ (id r) j) xs)
      at (inl e) o =
          let equal = (eq_ℤ_iff j k).0 e in
          rw (e, equal, found, find_row-id k xs x found, eq_ℤ_refl)
      at (inr e) (inl missing) = rw (e, missing)
      at (inr e) (inr (y, there)) = rw (e, there, find_row-id j xs y there, e)

  pub find_row-delete_id :
      (k j : ℤ) (xs : List A)
      → find_row (λ r. eq_ℤ (id r) j) (delete_rows (λ r. eq_ℤ (id r) k) xs)
        ≡ (if eq_ℤ j k then none else find_row (λ r. eq_ℤ (id r) j) xs)
  find_row-delete_id k j xs = elim (Bool-cases (eq_ℤ j k)) [
    | inl e ↦
        let equal = (eq_ℤ_iff j k).0 e in
        rw (e, equal, find_row-delete_rows_self (λ r. eq_ℤ (id r) k) xs)
    | inr e ↦ rw (e, find_row-delete_rows_ne (λ r. eq_ℤ (id r) k) (λ r. eq_ℤ (id r) j) xs (apart e))
  ]
    where
      apart : eq_ℤ j k ≡ false → (x : A) → eq_ℤ (id x) j ≡ true → eq_ℤ (id x) k ≡ false
      apart e x h = rw ((eq_ℤ_iff (id x) j).0 h) e

  pub find_row-insert_id :
      (next : ℕ) (j : ℤ) (xs : List A) (y : A)
      → id y ≡ pos next
      → All (λ x. IsBelow next (id x)) xs
      → find_row (λ r. eq_ℤ (id r) j) (xs ++ y ∷ [])
        ≡ (if eq_ℤ j (pos next) then some y else find_row (λ r. eq_ℤ (id r) j) xs)
  find_row-insert_id next j xs y same below = elim (Bool-cases (eq_ℤ j (pos next))) [
    | inl e ↦ rw (
      e,
      (eq_ℤ_iff j (pos next)).0 e,
      find_row-append,
      find_row-next next xs below,
      same,
      eq_ℤ_refl,
    )
    | inr e ↦
        rw (e, find_row-append, same)
          (ground (
            arith,
            eq_ℤ_iff (pos next) j,
            eq_ℤ_iff j (pos next),
            exists_row-find_row (λ r. eq_ℤ (id r) j) xs,
          ))
  ]
