-- ===== src/Tests/Ordering.antt =====
-- An order of tasks by their time of creation: insertion sort, the newest first.
use taskflow_api.Base.{
  ◌≡◌, refl, inl, inr, Bool, List, [], ◌∷◌, arith, if◌then◌else◌, Bool-cases, All, ℤ, ◌≤ℤ◌, leb_ℤ,
}
use taskflow_api.Domain.{Task}
use taskflow_api.Sql.{count_rows}
use taskflow_api.Server.Pages.{NewestFirst, IsOrdering}

insert : Task → List Task → List Task
insert k [] = k ∷ []
insert k (l ∷ ls) =
    let rest = insert k ls in if leb_ℤ l.created_at k.created_at then k ∷ l ∷ ls else l ∷ rest

unfoldable pub by_creation : List Task → List Task
unfolding insert
by_creation [] = []
by_creation (k ∷ ks) = insert k (by_creation ks)

count_rows-insert :
    (p : Task → Bool) (k : Task) (ks : List Task)
    → count_rows p (insert k ks) ≡ count_rows p (k ∷ ks)
unfolding count_rows insert
count_rows-insert p k [] = refl
count_rows-insert p k (l ∷ ls) = ground (arith, count_rows-insert p k ls)

count_rows-by_creation :
    (p : Task → Bool) (ks : List Task) → count_rows p (by_creation ks) ≡ count_rows p ks
unfolding count_rows by_creation
count_rows-by_creation p [] = refl
count_rows-by_creation p (k ∷ ks) =
    ground (arith, count_rows-insert p k (by_creation ks), count_rows-by_creation p ks)

weaken :
    (b c : ℤ) (ks : List Task)
    → b ≤ℤ c
    → All (λ l. l.created_at ≤ℤ b) ks
    → All (λ l. l.created_at ≤ℤ c) ks
weaken b c [] h a = tt
weaken b c (k ∷ ks) h (x, a) = (omega arith, weaken b c ks h a)

All-insert :
    (b : ℤ) (k : Task) (ks : List Task)
    → k.created_at ≤ℤ b
    → All (λ l. l.created_at ≤ℤ b) ks
    → All (λ l. l.created_at ≤ℤ b) (insert k ks)
unfolding insert
All-insert b k [] h a = (h, tt)
All-insert b k (l ∷ ls) h (x, a) = ground (arith, All-insert b k ls h a)

NewestFirst-insert : (k : Task) (ks : List Task) → NewestFirst ks → NewestFirst (insert k ks)
unfolding insert
NewestFirst-insert k [] h = (tt, tt)
NewestFirst-insert k (l ∷ ls) (a, h) = elim (Bool-cases (leb_ℤ l.created_at k.created_at)) [
  | inl e ↦ rw e ((ground arith, weaken l.created_at k.created_at ls (ground arith) a), (a, h))
  | inr e ↦ rw e (All-insert l.created_at k ls (ground arith) a, NewestFirst-insert k ls h)
]

NewestFirst-by_creation : (ks : List Task) → NewestFirst (by_creation ks)
unfolding by_creation
NewestFirst-by_creation [] = tt
NewestFirst-by_creation (k ∷ ks) =
    NewestFirst-insert k (by_creation ks) (NewestFirst-by_creation ks)

pub by_creation-IsOrdering : IsOrdering (λ n ks. by_creation ks)
by_creation-IsOrdering = record {
  same_rows = λ p n ks. count_rows-by_creation p ks;
  newest_first = λ n ks. NewestFirst-by_creation ks;
}
