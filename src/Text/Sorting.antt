-- ===== src/Text/Sorting.antt =====
-- `sort.Strings` of Go's package sort, by insertion, and `strings.Join`.
use taskflow_api.Base.{
  ◌≡◌, refl, inl, inr, String, Bool, true, false, ◌&&◌, ◌||◌, List, [], ◌∷◌, ltb, ◌==◌, arith,
  if◌then◌else◌, Bool-cases, All,
}
use mathlib.Core.List.{Perm, perm-cons}
use mathlib.Core.List.Perm
use Prim.Native.Char.{code}
use Prim.Native.String.{◌++◌ as str_append}

-- The order of Go's `<=` on strings, which is that of their characters.
unfoldable pub str_leb : String → String → Bool
str_leb String.[] t = true
str_leb (String.◌∷◌ c s) String.[] = false
str_leb (String.◌∷◌ c s) (String.◌∷◌ d t) =
    let rest = str_leb s t in ltb (code c) (code d) || ((code c == code d) && rest)

unfoldable pub insert : String → List String → List String
insert s [] = s ∷ []
insert s (t ∷ ts) = let rest = insert s ts in if str_leb s t then s ∷ t ∷ ts else t ∷ rest

unfoldable pub sort_strings : List String → List String
sort_strings [] = []
sort_strings (s ∷ ss) = insert s (sort_strings ss)

-- `strings.Join(ss, sep)`
unfoldable pub join : String → List String → String
join sep [] = ""
join sep (s ∷ []) = s
join sep (s ∷ t ∷ ss) = str_append s (str_append sep (join sep (t ∷ ss)))

-- Each text of the list is at most those after it.
abbrev pub IsSorted : List String → Type 0
IsSorted [] = Unit
IsSorted (s ∷ ss) = All (λ t. str_leb s t ≡ true) ss × IsSorted ss

str_leb_total : (s t : String) → str_leb s t ≡ false → str_leb t s ≡ true
unfolding str_leb
str_leb_total String.[] t h = cc h
str_leb_total (String.◌∷◌ c s) String.[] h = refl
str_leb_total (String.◌∷◌ c s) (String.◌∷◌ d t) h = ground (arith, str_leb_total s t)

str_leb_trans : (s t u : String) → str_leb s t ≡ true → str_leb t u ≡ true → str_leb s u ≡ true
unfolding str_leb
str_leb_trans String.[] t u h k = refl
str_leb_trans (String.◌∷◌ c s) String.[] u h k = cc h
str_leb_trans (String.◌∷◌ c s) (String.◌∷◌ d t) String.[] h k = cc k
str_leb_trans (String.◌∷◌ c s) (String.◌∷◌ d t) (String.◌∷◌ e u) h k =
    ground (arith, str_leb_trans s t u)

All-below :
    (s t : String) (ts : List String)
    → str_leb s t ≡ true
    → All (λ u. str_leb t u ≡ true) ts
    → All (λ u. str_leb s u ≡ true) ts
All-below s t [] h a = tt
All-below s t (u ∷ us) h (first, rest) = (str_leb_trans s t u h first, All-below s t us h rest)

All-insert :
    (P : String → Type 0) (s : String) (ts : List String) → P s → All P ts → All P (insert s ts)
unfolding insert
All-insert P s [] h a = (h, tt)
All-insert P s (t ∷ ts) h (first, rest) = elim (Bool-cases (str_leb s t)) [
  | inl e ↦ rw e (h, (first, rest))
  | inr e ↦ rw e (first, All-insert P s ts h rest)
]

insert-IsSorted : (s : String) (ts : List String) → IsSorted ts → IsSorted (insert s ts)
unfolding insert
insert-IsSorted s [] a = (tt, tt)
insert-IsSorted s (t ∷ ts) (above, rest) = elim (Bool-cases (str_leb s t)) [
  | inl e ↦ rw e ((e, All-below s t ts e above), (above, rest))
  | inr e ↦ rw e (
    All-insert (λ u. str_leb t u ≡ true) s ts (str_leb_total s t e) above,
    insert-IsSorted s ts rest,
  )
]

pub sort_strings-IsSorted : (ss : List String) → IsSorted (sort_strings ss)
unfolding sort_strings
sort_strings-IsSorted [] = tt
sort_strings-IsSorted (s ∷ ss) = insert-IsSorted s (sort_strings ss) (sort_strings-IsSorted ss)

Perm-insert : (s : String) (ts : List String) → Perm (insert s ts) (s ∷ ts)
unfolding insert
Perm-insert s [] = Perm.refl (s ∷ [])
Perm-insert s (t ∷ ts) = elim (Bool-cases (str_leb s t)) [
  | inl e ↦ rw e (Perm.refl (s ∷ t ∷ ts))
  | inr e ↦ rw e (Perm.trans ((perm-cons t).1 (Perm-insert s ts)) (Perm.swap s t ts))
]

pub Perm-sort_strings : (ss : List String) → Perm (sort_strings ss) ss
unfolding sort_strings
Perm-sort_strings [] = Perm.refl []
Perm-sort_strings (s ∷ ss) =
    Perm.trans (Perm-insert s (sort_strings ss)) ((perm-cons s).1 (Perm-sort_strings ss))
