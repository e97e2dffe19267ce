-- ===== src/Sql/Rows.antt =====
-- The laws of the statements over rows.
use taskflow_api.Base.{
  ◌≡◌, refl, ◌↔◌, inl, inr, Bool, true, false, none, some, List, [], ◌∷◌, ◌++◌, arith,
  if◌then◌else◌, Bool-cases, length, All,
}
use mathlib.Core.Option
use taskflow_api.Sql.{find_row, select_rows, count_rows, delete_rows, update_rows, exists_row}

module _ {ℓ} {A : Type ℓ} (p : A → Bool) where
  -- A row that is found satisfies the clause.
  pub find_row-where : (xs : List A) {x : A} → find_row p xs ≡ some x → p x ≡ true
  unfolding find_row
  find_row-where [] h = cc
  find_row-where (x ∷ xs) {x = y} h = ground (arith, find_row-where xs {x = y})

  pub find_row-All {κ} :
      (P : A → Type κ) (xs : List A) {x : A} → All P xs → find_row p xs ≡ some x → P x
  unfolding find_row
  find_row-All P [] a h = cc
  find_row-All P (y ∷ xs) {x} (q, a) h = elim (Bool-cases (p y)) [
    | inl e ↦ let same : some y ≡ some x = ground arith in rw (← some_inj same) q
    | inr e ↦ find_row-All P xs a (ground arith)
  ]
    where
      some_inj : {a b : A} → some a ≡ some b → a ≡ b
      some_inj h = cc

  -- Nothing is found exactly when the constraint check finds nothing.
  pub exists_row-find_row : (xs : List A) → exists_row p xs ≡ false → find_row p xs ≡ none
  unfolding find_row exists_row
  exists_row-find_row [] h = refl
  exists_row-find_row (x ∷ xs) h = ground (arith, exists_row-find_row xs)

  pub find_row-exists_row : (xs : List A) → find_row p xs ≡ none → exists_row p xs ≡ false
  unfolding find_row exists_row
  find_row-exists_row [] h = refl
  find_row-exists_row (x ∷ xs) h = ground (arith, find_row-exists_row xs)

  pub find_row-append :
      (xs : List A) (y : A)
      → find_row p (xs ++ y ∷ [])
        ≡ (if exists_row p xs then find_row p xs else if p y then some y else none)
  unfolding find_row exists_row
  find_row-append [] y = refl
  find_row-append (x ∷ xs) y = ground (arith, find_row-append xs y)

  pub select_rows-All {κ} : (P : A → Type κ) (xs : List A) → All P xs → All P (select_rows p xs)
  unfolding select_rows
  select_rows-All P [] a = tt
  select_rows-All P (x ∷ xs) (q, a) = ground (arith, select_rows-All P xs a)

  pub select_rows-where : (xs : List A) → All (λ x. p x ≡ true) (select_rows p xs)
  unfolding select_rows
  select_rows-where [] = tt
  select_rows-where (x ∷ xs) = ground (arith, select_rows-where xs)

  pub length-select_rows : (xs : List A) → length (select_rows p xs) ≡ count_rows p xs
  unfolding select_rows count_rows
  length-select_rows [] = refl
  length-select_rows (x ∷ xs) = ground (arith, length-select_rows xs)

  pub delete_rows-All {κ} : (P : A → Type κ) (xs : List A) → All P xs → All P (delete_rows p xs)
  unfolding delete_rows
  delete_rows-All P [] a = tt
  delete_rows-All P (x ∷ xs) (q, a) = ground (arith, delete_rows-All P xs a)

  pub update_rows-All {κ} :
      (P : A → Type κ) (set : A → A) (xs : List A)
      → ((x : A) → P x → P (set x))
      → All P xs
      → All P (update_rows p set xs)
  unfolding update_rows
  update_rows-All P set [] keep a = tt
  update_rows-All P set (x ∷ xs) keep (q, a) =
      ground (arith, keep x q, update_rows-All P set xs keep a)

  -- A row that no clause selects leaves the table alone.
  pub update_rows-none :
      (set : A → A) (xs : List A) → exists_row p xs ≡ false → update_rows p set xs ≡ xs
  unfolding update_rows exists_row
  update_rows-none set [] h = refl
  update_rows-none set (x ∷ xs) h = ground (arith, update_rows-none set xs)

  pub count_rows-zero_iff : (xs : List A) → (count_rows p xs ≡ 0) ↔ (find_row p xs ≡ none)
  unfolding count_rows find_row
  count_rows-zero_iff [] = ground arith
  count_rows-zero_iff (x ∷ xs) = ground (arith, count_rows-zero_iff xs)

module _ {ℓ} {A : Type ℓ} (p q : A → Bool) where
  -- An update that does not change what `q` asks of a row commutes with looking a row up by `q`.
  pub find_row-update_rows :
      (set : A → A) (xs : List A)
      → ((x : A) → q (set x) ≡ q x)
      → find_row q (update_rows p set xs)
        ≡ Option.map (λ x. if p x then set x else x) (find_row q xs)
  unfolding find_row update_rows
  find_row-update_rows set [] same = refl
  find_row-update_rows set (x ∷ xs) same = ground (arith, same x, find_row-update_rows set xs same)

  pub exists_row-update_rows :
      (set : A → A) (xs : List A)
      → ((x : A) → q (set x) ≡ q x)
      → exists_row q (update_rows p set xs) ≡ exists_row q xs
  unfolding exists_row update_rows
  exists_row-update_rows set [] same = refl
  exists_row-update_rows set (x ∷ xs) same =
      ground (arith, same x, exists_row-update_rows set xs same)

  -- Looking up a row that a deletion does not select.
  pub find_row-delete_rows_ne :
      (xs : List A)
      → ((x : A) → q x ≡ true → p x ≡ false)
      → find_row q (delete_rows p xs) ≡ find_row q xs
  unfolding find_row delete_rows
  find_row-delete_rows_ne [] apart = refl
  find_row-delete_rows_ne (x ∷ xs) apart = ground (arith, apart x, find_row-delete_rows_ne xs apart)

pub find_row-delete_rows_self {ℓ} :
    {A : Type ℓ} (p : A → Bool) (xs : List A) → find_row p (delete_rows p xs) ≡ none
unfolding find_row delete_rows
find_row-delete_rows_self p [] = refl
find_row-delete_rows_self p (x ∷ xs) = ground (arith, find_row-delete_rows_self p xs)
