-- ===== src/Server/Pages/Orders.antt =====
-- The order of the rows that ListByUser asks for (internal/repository/task_repository.go), as far
-- as ORDER BY created_at DESC fixes it.
use taskflow_api.Base.{
  ℕ, zero, suc, ◌≤◌, ◌≡◌, refl, sym, ap, ◌∙◌, Bool, true, List, [], ◌∷◌, arith, length, take, drop,
  All, All-take, ◌≤ℤ◌,
}
use taskflow_api.Domain.{Task}
use taskflow_api.Sql.{count_rows}

-- The newest task comes first.
abbrev pub NewestFirst : List Task → Type 0
NewestFirst [] = Unit
NewestFirst (k ∷ ks) = All (λ l. l.created_at ≤ℤ k.created_at) ks × NewestFirst ks

pub NewestFirst-take : (n : ℕ) (ks : List Task) → NewestFirst ks → NewestFirst (take n ks)
NewestFirst-take zero ks h = tt
NewestFirst-take (suc n) [] h = tt
NewestFirst-take (suc n) (k ∷ ks) (a, h) =
    (All-take (λ l. l.created_at ≤ℤ k.created_at) n ks a, NewestFirst-take n ks h)

pub NewestFirst-drop : (n : ℕ) (ks : List Task) → NewestFirst ks → NewestFirst (drop n ks)
NewestFirst-drop zero ks h = h
NewestFirst-drop (suc n) [] h = tt
NewestFirst-drop (suc n) (k ∷ ks) (a, h) = NewestFirst-drop n ks h

-- What ORDER BY created_at DESC means: the same rows, as often, with the newest first. Among rows
-- with one created_at the order is the server's.
pub record IsOrdering (order : ℕ → List Task → List Task) : Type 0 where
  pub same_rows :
      (p : Task → Bool) (n : ℕ) (ks : List Task) → count_rows p (order n ks) ≡ count_rows p ks
  pub newest_first : (n : ℕ) (ks : List Task) → NewestFirst (order n ks)

module _ {A : Type 0} (p : A → Bool) where
  count_rows-le : (xs : List A) → count_rows p xs ≤ length xs
  unfolding count_rows
  count_rows-le [] = omega arith
  count_rows-le (x ∷ xs) = ground (arith, count_rows-le xs)

  All-count : (xs : List A) → count_rows p xs ≡ length xs → All (λ x. p x ≡ true) xs
  unfolding count_rows
  All-count [] h = tt
  All-count (x ∷ xs) h = ground (arith, count_rows-le xs, All-count xs)

  count_of_All : (xs : List A) → All (λ x. p x ≡ true) xs → count_rows p xs ≡ length xs
  unfolding count_rows
  count_of_All [] a = refl
  count_of_All (x ∷ xs) (e, a) = ground (arith, count_of_All xs a)

count_rows-true : {A : Type 0} (xs : List A) → count_rows (λ _. true) xs ≡ length xs
unfolding count_rows
count_rows-true [] = refl
count_rows-true (x ∷ xs) = ap suc (count_rows-true xs)

module _ (order : ℕ → List Task → List Task) (o : IsOrdering order) where
  pub length-order : (n : ℕ) (ks : List Task) → length (order n ks) ≡ length ks
  length-order n ks =
      sym (count_rows-true (order n ks)) ∙ o.same_rows (λ _. true) n ks ∙ count_rows-true ks

  pub All-order :
      (p : Task → Bool) (n : ℕ) (ks : List Task)
      → All (λ k. p k ≡ true) ks
      → All (λ k. p k ≡ true) (order n ks)
  All-order p n ks a =
      All-count p (order n ks) (o.same_rows p n ks ∙ count_of_All p ks a ∙ sym (length-order n ks))
