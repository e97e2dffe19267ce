-- ===== src/Sql.antt =====
-- What the SQL texts of internal/repository do to the rows of one table: SELECT, UPDATE and DELETE
-- under a WHERE clause, which is a Boolean function of the row.
pub mod Rows
pub mod Keys
pub mod Ids
use taskflow_api.Base.{
  ℕ, suc, ◌-◌, Bool, false, ◌||◌, Option, none, some, List, [], ◌∷◌, if◌then◌else◌,
}

module _ {ℓ} {A : Type ℓ} (where_ : A → Bool) where
  unfoldable pub find_row : List A → Option A
  find_row [] = none
  find_row (x ∷ xs) = if where_ x then some x else find_row xs

  unfoldable pub select_rows : List A → List A
  select_rows [] = []
  select_rows (x ∷ xs) = let rest = select_rows xs in if where_ x then x ∷ rest else rest

  unfoldable pub count_rows : List A → ℕ
  count_rows [] = 0
  count_rows (x ∷ xs) = if where_ x then suc (count_rows xs) else count_rows xs

  unfoldable pub delete_rows : List A → List A
  delete_rows [] = []
  delete_rows (x ∷ xs) = let rest = delete_rows xs in if where_ x then rest else x ∷ rest

  unfoldable pub update_rows : (A → A) → List A → List A
  update_rows set [] = []
  update_rows set (x ∷ xs) = (if where_ x then set x else x) ∷ update_rows set xs

  -- Whether a UNIQUE or a FOREIGN KEY constraint finds the row that it looks for.
  unfoldable pub exists_row : List A → Bool
  exists_row [] = false
  exists_row (x ∷ xs) = where_ x || exists_row xs
