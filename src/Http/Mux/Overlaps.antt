-- ===== src/Http/Mux/Overlaps.antt =====
-- Which patterns a request can match together.
use taskflow_api.Base.{
  ℕ, ◌+◌, ◌≤◌, String, ◌≡◌, refl, sym, ◌∙◌, ◌⊎◌, inl, inr, Bool-cases, Option, none, some,
  Option-cases, List, [], ◌∷◌, Bool, true, false, ◌&&◌, ◌||◌, not, arith, str_eq, str_eq_iff,
  str_eq_refl, if◌then◌else◌,
}
use taskflow_api.Http.Mux.{Segment, literal, wildcard, subtree, Route, match_path, match_method}

-- Whether some path may match both patterns. A wildcard may be any segment.
unfoldable pub paths_overlap : List Segment → List Segment → Bool
paths_overlap [] [] = true
paths_overlap [] (q ∷ qs) = false
paths_overlap (p ∷ ps) [] = false
paths_overlap (subtree ∷ ps) (q ∷ qs) = true
paths_overlap (literal l ∷ ps) (subtree ∷ qs) = true
paths_overlap (literal l ∷ ps) (literal m ∷ qs) = str_eq l m && paths_overlap ps qs
paths_overlap (literal l ∷ ps) (wildcard n ∷ qs) = paths_overlap ps qs
paths_overlap (wildcard n ∷ ps) (subtree ∷ qs) = true
paths_overlap (wildcard n ∷ ps) (literal m ∷ qs) = paths_overlap ps qs
paths_overlap (wildcard n ∷ ps) (wildcard m ∷ qs) = paths_overlap ps qs

-- Whether some method may match both patterns.
unfoldable pub methods_overlap : String → String → Bool
methods_overlap a b =
    str_eq a ""
    || str_eq b ""
    || str_eq a b
    || (str_eq a "GET" && str_eq b "HEAD")
    || (str_eq b "GET" && str_eq a "HEAD")

abbrev is_some : {A : Type 0} → Option A → Bool
is_some none = false
is_some (some a) = true

-- Whether a pattern matches a method and a path.
unfoldable pub matches : Route → String → List String → Bool
matches q method path = match_method q.method method && is_some (match_path q.segments path)

-- How many of the patterns match a method and a path.
unfoldable pub matching : List Route → String → List String → ℕ
matching [] method path = 0
matching (q ∷ qs) method path =
    let rest = matching qs method path in if matches q method path then 1 + rest else rest

unfoldable pub disjoint_from : Route → List Route → Bool
disjoint_from q [] = true
disjoint_from q (p ∷ ps) =
    not (methods_overlap q.method p.method && paths_overlap q.segments p.segments)
    && disjoint_from q ps

unfoldable pub all_disjoint : List Route → Bool
all_disjoint [] = true
all_disjoint (q ∷ qs) = disjoint_from q qs && all_disjoint qs

match_literal :
    (l s : String) (ps : List Segment) (ss : List String)
    → is_some (match_path (literal l ∷ ps) (s ∷ ss)) ≡ true
    → (l ≡ s) × (is_some (match_path ps ss) ≡ true)
unfolding match_path
match_literal l s ps ss h = elim (Bool-cases (str_eq l s)) [
  | inl e ↦ ((str_eq_iff l s).0 e, rw e at h)
  | inr e ↦ cc (rw e at h)
]

match_wildcard :
    (n s : String) (ps : List Segment) (ss : List String)
    → is_some (match_path (wildcard n ∷ ps) (s ∷ ss)) ≡ true
    → is_some (match_path ps ss) ≡ true
unfolding match_path
match_wildcard n s ps ss h = elim (Bool-cases (str_eq s "")) [
  | inl e ↦ cc (rw e at h)
  | inr e ↦ elim (Option-cases (match_path ps ss)) [
    | inl missed ↦ cc (rw (e, missed) at h)
    | inr (vs, matched) ↦ rw matched refl
  ]
]

paths_overlap_lem :
    (ps qs : List Segment) (ss : List String)
    → is_some (match_path ps ss) ≡ true
    → is_some (match_path qs ss) ≡ true
    → paths_overlap ps qs ≡ true
unfolding paths_overlap match_path
paths_overlap_lem [] [] ss h k = refl
paths_overlap_lem [] (q ∷ qs) [] h k = cc k
paths_overlap_lem [] (q ∷ qs) (s ∷ ss) h k = cc h
paths_overlap_lem (p ∷ ps) [] [] h k = cc h
paths_overlap_lem (p ∷ ps) [] (s ∷ ss) h k = cc k
paths_overlap_lem (p ∷ ps) (q ∷ qs) [] h k = cc h
paths_overlap_lem (subtree ∷ ps) (q ∷ qs) (s ∷ ss) h k = refl
paths_overlap_lem (literal l ∷ ps) (subtree ∷ qs) (s ∷ ss) h k = refl
paths_overlap_lem (literal l ∷ ps) (literal m ∷ qs) (s ∷ ss) h k =
    let (e, h') = match_literal l s ps ss h in
    let (f, k') = match_literal m s qs ss k in
    rw ((str_eq_iff l m).1 (e ∙ sym f)) (paths_overlap_lem ps qs ss h' k')
paths_overlap_lem (literal l ∷ ps) (wildcard n ∷ qs) (s ∷ ss) h k =
    paths_overlap_lem ps qs ss (match_literal l s ps ss h).1 (match_wildcard n s qs ss k)
paths_overlap_lem (wildcard n ∷ ps) (subtree ∷ qs) (s ∷ ss) h k = refl
paths_overlap_lem (wildcard n ∷ ps) (literal m ∷ qs) (s ∷ ss) h k =
    paths_overlap_lem ps qs ss (match_wildcard n s ps ss h) (match_literal m s qs ss k).1
paths_overlap_lem (wildcard n ∷ ps) (wildcard m ∷ qs) (s ∷ ss) h k =
    paths_overlap_lem ps qs ss (match_wildcard n s ps ss h) (match_wildcard m s qs ss k)

method_cases :
    (a m : String) → match_method a m ≡ true → (a ≡ "") ⊎ ((a ≡ m) ⊎ ((a ≡ "GET") × (m ≡ "HEAD")))
unfolding match_method
method_cases a m h = elim (Bool-cases (str_eq a "")) [
  | inl e ↦ inl ((str_eq_iff a "").0 e)
  | inr e ↦ elim (Bool-cases (str_eq a m)) [
    | inl f ↦ inr (inl ((str_eq_iff a m).0 f))
    | inr f ↦ elim (Bool-cases (str_eq a "GET")) [
      | inl g ↦ inr (inr ((str_eq_iff a "GET").0 g, (str_eq_iff m "HEAD").0 (rw (e, f, g) at h)))
      | inr g ↦ cc (rw (e, f, g) at h)
    ]
  ]
]

methods_overlap_lem :
    (a b m : String)
    → match_method a m ≡ true
    → match_method b m ≡ true
    → methods_overlap a b ≡ true
unfolding methods_overlap
methods_overlap_lem a b m h k = elim (method_cases a m h) [
  | inl e ↦ rw e refl
  | inr (inl e) ↦ elim (method_cases b m k) [
    | inl f ↦ rw (e, f) (ground arith)
    | inr (inl f) ↦ rw (e, f) (ground (arith, str_eq_refl m))
    | inr (inr (f, g)) ↦ rw (e, f, g) refl
  ]
  | inr (inr (e, g)) ↦ elim (method_cases b m k) [
    | inl f ↦ rw (e, f) refl
    | inr (inl f) ↦ rw (e, f, g) refl
    | inr (inr (f, g')) ↦ rw (e, f) refl
  ]
]

matches_overlap :
    (q p : Route) (method : String) (path : List String)
    → matches q method path ≡ true
    → matches p method path ≡ true
    → (methods_overlap q.method p.method && paths_overlap q.segments p.segments) ≡ true
unfolding matches
matches_overlap q p method path h k =
    rw (methods_overlap_lem q.method p.method method (ground arith) (ground arith))
      (paths_overlap_lem q.segments p.segments path (ground arith) (ground arith))

disjoint_from_lem :
    (q : Route) (qs : List Route) (method : String) (path : List String)
    → disjoint_from q qs ≡ true
    → matches q method path ≡ true
    → matching qs method path ≡ 0
unfolding disjoint_from matching
disjoint_from_lem q [] method path d h = refl
disjoint_from_lem q (p ∷ ps) method path d h = elim (Bool-cases (matches p method path)) [
  | inl k ↦ cc (rw (matches_overlap q p method path h k) at d)
  | inr k ↦ rw k (disjoint_from_lem q ps method path (ground arith) h)
]

-- At most one of the patterns matches, if no two of them overlap.
pub matching-all_disjoint :
    (qs : List Route) (method : String) (path : List String)
    → all_disjoint qs ≡ true
    → matching qs method path ≤ 1
unfolding matching all_disjoint
matching-all_disjoint [] method path d = omega arith
matching-all_disjoint (q ∷ qs) method path d = elim (Bool-cases (matches q method path)) [
  | inl h ↦ rw (h, disjoint_from_lem q qs method path (ground arith) h) (omega arith)
  | inr h ↦ rw h (matching-all_disjoint qs method path (ground arith))
]
