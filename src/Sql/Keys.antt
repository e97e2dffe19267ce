-- ===== src/Sql/Keys.antt =====
-- Keys of rows: UNIQUE columns, the values of a sequence, and references between tables.
use taskflow_api.Base.{
  ℕ, suc, ◌<◌, String, ◌≡◌, sym, ◌∙◌, ◌≢◌, inl, inr, Bool, true, false, some, List, [], ◌∷◌, ◌++◌,
  arith, str_eq, str_eq_iff, if◌then◌else◌, Bool-cases, All, All-append, ℤ, pos, negsuc,
}
use taskflow_api.Sql.{find_row, delete_rows, update_rows, exists_row}
use taskflow_api.Sql.Rows.{delete_rows-All, update_rows-All}

-- A value below the sequence's next one.
abbrev pub IsBelow : ℕ → ℤ → Type 0
IsBelow next (pos n) = n < next
IsBelow next (negsuc n) = ⊥

module _ {ℓ κ} {A : Type ℓ} {K : Type κ} (key : A → K) where
  -- No two rows have the same key.
  abbrev pub Distinct : List A → Type (ℓ ⊔ κ)
  Distinct [] = Unit
  Distinct (x ∷ xs) = All (λ y. key y ≢ key x) xs × Distinct xs

  pub Distinct-append :
      (xs : List A) (y : A) → All (λ x. key y ≢ key x) xs → Distinct xs → Distinct (xs ++ y ∷ [])
  Distinct-append [] y fresh d = (tt, tt)
  Distinct-append (x ∷ xs) y (ne, fresh) (a, d) =
      (All-append (λ z. key z ≢ key x) xs (y ∷ []) a (ne, tt), Distinct-append xs y fresh d)

  module _ (p : A → Bool) where
    Distinct-delete_All :
        (k : K) (xs : List A) → All (λ y. key y ≢ k) xs → All (λ y. key y ≢ k) (delete_rows p xs)
    unfolding delete_rows
    Distinct-delete_All k [] a = tt
    Distinct-delete_All k (x ∷ xs) (ne, a) = elim (Bool-cases (p x)) [
      | inl e ↦ rw e (Distinct-delete_All k xs a)
      | inr e ↦ rw e (ne, Distinct-delete_All k xs a)
    ]

    pub Distinct-delete_rows : (xs : List A) → Distinct xs → Distinct (delete_rows p xs)
    unfolding delete_rows
    Distinct-delete_rows [] d = tt
    Distinct-delete_rows (x ∷ xs) (a, d) = elim (Bool-cases (p x)) [
      | inl e ↦ rw e (Distinct-delete_rows xs d)
      | inr e ↦ rw e (Distinct-delete_All (key x) xs a, Distinct-delete_rows xs d)
    ]

    module _ (set : A → A) (same : (x : A) → key (set x) ≡ key x) where
      key-if : (x : A) → key (if p x then set x else x) ≡ key x
      key-if x = elim (Bool-cases (p x)) [ inl e ↦ rw e (same x) | inr e ↦ rw e ]

      Distinct-update_All :
          (k : K) (xs : List A)
          → All (λ y. key y ≢ k) xs
          → All (λ y. key y ≢ k) (update_rows p set xs)
      unfolding update_rows
      Distinct-update_All k [] a = tt
      Distinct-update_All k (x ∷ xs) (ne, a) =
          (λ e. ne (sym (key-if x) ∙ e), Distinct-update_All k xs a)

      -- An update that leaves the key alone leaves the keys distinct.
      pub Distinct-update_rows : (xs : List A) → Distinct xs → Distinct (update_rows p set xs)
      unfolding update_rows
      Distinct-update_rows [] d = tt
      Distinct-update_rows (x ∷ xs) (a, d) =
          (rw (key-if x) (Distinct-update_All (key x) xs a), Distinct-update_rows xs d)

-- What a UNIQUE constraint has found free, no row has.
pub exists_row-ne {ℓ} :
    {A : Type ℓ} (key : A → String) (k : String) (xs : List A)
    → exists_row (λ x. str_eq (key x) k) xs ≡ false
    → All (λ x. k ≢ key x) xs
unfolding exists_row
exists_row-ne key k [] h = tt
exists_row-ne key k (x ∷ xs) h =
    (λ e. ground (arith, str_eq_iff (key x) k), exists_row-ne key k xs (ground arith))

-- The next value of a sequence is no row's.
pub IsBelow-ne {ℓ} :
    {A : Type ℓ} (key : A → ℤ) (next : ℕ) (xs : List A)
    → All (λ x. IsBelow next (key x)) xs
    → All (λ x. pos next ≢ key x) xs
IsBelow-ne key next [] a = tt
IsBelow-ne key next (x ∷ xs) (b, a) =
    (λ e. not_below next (key x) (sym e) b, IsBelow-ne key next xs a)
  where
    not_below : (next : ℕ) (k : ℤ) → k ≡ pos next → IsBelow next k → ⊥
    not_below next (pos n) e b = ground arith
    not_below next (negsuc n) e b = b

pub IsBelow-suc : (next : ℕ) (k : ℤ) → IsBelow next k → IsBelow (suc next) k
IsBelow-suc next (pos n) b = omega arith
IsBelow-suc next (negsuc n) b = b

pub All-IsBelow-suc {ℓ} :
    {A : Type ℓ} (key : A → ℤ) (next : ℕ) (xs : List A)
    → All (λ x. IsBelow next (key x)) xs
    → All (λ x. IsBelow (suc next) (key x)) xs
All-IsBelow-suc key next [] a = tt
All-IsBelow-suc key next (x ∷ xs) (b, a) =
    (IsBelow-suc next (key x) b, All-IsBelow-suc key next xs a)

-- A row that is there stays there when another is appended.
pub exists_row-append {ℓ} :
    {A : Type ℓ} (p : A → Bool) (xs : List A) (y : A)
    → exists_row p xs ≡ true
    → exists_row p (xs ++ y ∷ []) ≡ true
unfolding exists_row
exists_row-append p [] y h = cc
exists_row-append p (x ∷ xs) y h = ground (arith, exists_row-append p xs y)

-- The row found under a key has that key.
pub find_row-key {ℓ} :
    {A : Type ℓ} (key : A → String) (k : String) (xs : List A) (x : A)
    → find_row (λ r. str_eq (key r) k) xs ≡ some x
    → key x ≡ k
unfolding find_row
find_row-key key k [] x h = cc
find_row-key key k (y ∷ xs) x h = ground (arith, str_eq_iff (key y) k, find_row-key key k xs x)

-- A table whose primary key is a BIGSERIAL column with this next value.
pub record IsTable {A : Type 0} (id : A → ℤ) (next : ℕ) (rows : List A) : Type 0 where
  pub ids : Distinct id rows
  pub sequence : All (λ x. IsBelow next (id x)) rows

module _ {A : Type 0} (id : A → ℤ) where
  -- The row that takes the next value.
  pub IsTable-append :
      (next : ℕ) (rows : List A) (y : A)
      → id y ≡ pos next
      → IsTable id next rows
      → IsTable id (suc next) (rows ++ y ∷ [])
  IsTable-append next rows y e c = record {
    ids = Distinct-append id rows y (rw e (IsBelow-ne id next rows c.sequence)) c.ids;
    sequence =
        All-append (λ x. IsBelow (suc next) (id x)) rows (y ∷ [])
          (All-IsBelow-suc id next rows c.sequence) (rw e (omega arith), tt);
  }

  -- A refused insertion has used up the next value.
  pub IsTable-skip : (next : ℕ) (rows : List A) → IsTable id next rows → IsTable id (suc next) rows
  IsTable-skip next rows c = record {
    ids = c.ids;
    sequence = All-IsBelow-suc id next rows c.sequence;
  }

  pub IsTable-delete_rows :
      (p : A → Bool) (next : ℕ) (rows : List A)
      → IsTable id next rows
      → IsTable id next (delete_rows p rows)
  IsTable-delete_rows p next rows c = record {
    ids = Distinct-delete_rows id p rows c.ids;
    sequence = delete_rows-All p (λ x. IsBelow next (id x)) rows c.sequence;
  }

  pub IsTable-update_rows :
      (p : A → Bool) (set : A → A) (next : ℕ) (rows : List A)
      → ((x : A) → id (set x) ≡ id x)
      → IsTable id next rows
      → IsTable id next (update_rows p set rows)
  IsTable-update_rows p set next rows same c = record {
    ids = Distinct-update_rows id p set same rows c.ids;
    sequence =
        update_rows-All p (λ x. IsBelow next (id x)) set rows (λ x b. rw (same x) b) c.sequence;
  }
