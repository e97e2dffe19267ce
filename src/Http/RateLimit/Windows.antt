-- ===== src/Http/RateLimit/Windows.antt =====
-- The fixed windows of ratelimit_redis.go.
use taskflow_api.Base.{
  ℕ, suc, ◌+◌, ◌-◌, ◌/◌, ◌≤◌, ◌<◌, String, ◌≡◌, refl, ◌∙◌, Bool, Bool-cases, inl, inr, true, false,
  Option, none, some, List, [], ◌∷◌, All, str_eq, str_eq_refl, length, arith, ltb, leb,
  if◌then◌else◌, ℤ, pos, negsuc, pos_part, leb_ℤ,
}
use Prim.Native.Nat.{min}
use taskflow_api.Domain.Errors.{Result, ok}
use taskflow_api.Sql.{find_row, count_rows}
use taskflow_api.Http.RateLimit.{
  Counter, window_millis, incr_and_expire, window_key, within, redis_allow,
}

-- The counter of a key.
abbrev pub counter_of : String → List Counter → Option Counter
counter_of key = find_row (λ k. str_eq k.key key)

-- The decisions about the requests of one client in one second, at these milliseconds.
abbrev pub decisions : String → ℤ → ℤ → List ℕ → List Counter → List (Result Bool)
decisions ip unix burst [] ks = []
decisions ip unix burst (t ∷ ts) ks =
    (redis_allow burst none ip unix t ks).0
    ∷ decisions ip unix burst ts (redis_allow burst none ip unix t ks).1

abbrev is_allowed : Result Bool → Bool
is_allowed (ok true) = true
is_allowed _ = false

abbrev pub allowed : List (Result Bool) → ℕ
allowed = count_rows is_allowed

-- A counter that has not expired goes up by one, and keeps its deadline.
incr-live :
    (key : String) (now : ℕ) (ks : List Counter) (k : Counter)
    → counter_of key ks ≡ some k
    → now < k.deadline
    → ((incr_and_expire key now ks).0 ≡ suc k.count)
      × (counter_of key (incr_and_expire key now ks).1 ≡ some (record k { count = suc k.count }))
unfolding incr_and_expire find_row
incr-live key now [] k found live = cc found
incr-live key now (x ∷ ks) k found live = elim (Bool-cases (str_eq x.key key)) [
  | inl e ↦
      let same : some x ≡ some k = rw e at found in
      let early : ltb now x.deadline ≡ true = rw (some_inj same) (young live) in
      rw (e, early) (rw (some_inj same) refl, rw (e, some_inj same) refl)
  | inr e ↦ let (n, c) = incr-live key now ks k (rw e at found) live in rw e (n, rw e c)
]
  where
    some_inj : {a b : Counter} → some a ≡ some b → a ≡ b
    some_inj h = cc

    young : now < k.deadline → ltb now k.deadline ≡ true
    young h = ground arith

-- A key that is not there begins at 1, for a second from now.
incr-new :
    (key : String) (now : ℕ) (ks : List Counter)
    → counter_of key ks ≡ none
    → ((incr_and_expire key now ks).0 ≡ 1)
      × (counter_of key (incr_and_expire key now ks).1
          ≡ some (record { key = key; count = 1; deadline = now + window_millis }))
unfolding incr_and_expire find_row
incr-new key now [] missing = (refl, rw (str_eq_refl key) refl)
incr-new key now (x ∷ ks) missing = elim (Bool-cases (str_eq x.key key)) [
  | inl e ↦ absurd (cc (rw e at missing))
  | inr e ↦ let (n, c) = incr-new key now ks (rw e at missing) in rw e (n, rw e c)
]

one_more :
    (burst : ℤ) (count rest more : ℕ)
    → rest ≡ min (pos_part burst - suc count) more
    → (if is_allowed (within burst (ok (suc count))) then suc rest else rest)
      ≡ min (pos_part burst - count) (suc more)
unfolding within
one_more (pos b) count rest more h = elim (Bool-cases (leb (suc count) b)) [
  | inl e ↦
      let fits : leb_ℤ (pos (suc count)) (pos b) ≡ true = ground arith in
      let below : suc count ≤ b = ground arith in rw fits (omega (arith, h))
  | inr e ↦
      let over : leb_ℤ (pos (suc count)) (pos b) ≡ false = ground arith in
      let above : b ≤ count = ground arith in rw over (omega (arith, h))
]
one_more (negsuc b) count rest more h =
    let over : leb_ℤ (pos (suc count)) (negsuc b) ≡ false = ground arith in
    rw over (omega (arith, h))

-- The requests while a counter lives: as many are allowed as it leaves of the burst.
live_window :
    (ip : String) (unix burst : ℤ) (ts : List ℕ) (ks : List Counter) (k : Counter)
    → counter_of (window_key ip unix) ks ≡ some k
    → All (λ t. t < k.deadline) ts
    → allowed (decisions ip unix burst ts ks) ≡ min (pos_part burst - k.count) (length ts)
unfolding count_rows
live_window ip unix burst [] ks k found a = omega arith
live_window ip unix burst (t ∷ ts) ks k found (live, a) =
    let (n, c) = incr-live (window_key ip unix) t ks k found live in
    rw n (
      one_more burst k.count _ (length ts)
        (live_window ip unix burst ts _ (record k { count = suc k.count }) c a))

-- Redis holds a client to the burst in each second, and grants it that much: of the requests of one
-- client in one second of the clock, the first of which finds no counter, as many are allowed as
-- the burst says, or all if they are fewer.
pub window_allows_burst :
    (ip : String) (burst : ℤ) (t : ℕ) (ts : List ℕ) (ks : List Counter)
    → counter_of (window_key ip (pos (t / 1000))) ks ≡ none
    → All (λ u. u / 1000 ≡ t / 1000) ts
    → allowed (decisions ip (pos (t / 1000)) burst (t ∷ ts) ks)
      ≡ min (pos_part burst) (suc (length ts))
unfolding count_rows
window_allows_burst ip burst t ts ks missing a =
    let unix = pos (t / 1000) in
    let key = window_key ip unix in
    let (n, c) = incr-new key t ks missing in
    rw n (
      one_more burst 0 _ (length ts) (
        live_window ip unix burst ts _
          (record { key = key; count = 1; deadline = t + window_millis }) c (same_second ts a))
      ∙ all_of_it)
  where
    all_of_it : min (pos_part burst - 0) (suc (length ts)) ≡ min (pos_part burst) (suc (length ts))
    all_of_it = omega arith

    same_second : (us : List ℕ) → All (λ u. u / 1000 ≡ t / 1000) us → All (λ u. u < t + 1000) us
    same_second [] b = tt
    same_second (u ∷ us) (e, b) = (omega (arith, e), same_second us b)
