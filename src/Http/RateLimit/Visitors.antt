-- ===== src/Http/RateLimit/Visitors.antt =====
-- The in-memory limiter of ratelimit_memory.go: clients do not share a bucket, and a sweep only
-- forgets those that have been idle.
use taskflow_api.Base.{
  String, ◌≡◌, ◌≢◌, refl, ◌∙◌, Bool, List, [], ◌∷◌, All, str_eq_iff, arith, ◌*◌, ◌≤ℤ◌, ◌+ℤ◌, ℤ, pos,
}
use taskflow_api.Domain.{Instant}
use taskflow_api.Http.RateLimit.{Visitor, visitor_of, put, allow}

module _ {Limiter : Type 0} where
  visitor_of-put_ne :
      (ip other : String) (v : Visitor Limiter) (vs : List (String × Visitor Limiter))
      → ip ≢ other
      → visitor_of other (put ip v vs) ≡ visitor_of other vs
  unfolding visitor_of put
  visitor_of-put_ne ip other v [] ne = ground (arith, str_eq_iff ip other)
  visitor_of-put_ne ip other v ((k, u) ∷ vs) ne =
      ground (arith, str_eq_iff k ip, str_eq_iff k other, visitor_of-put_ne ip other v vs ne)

-- The requests of the clients that are listed, each with its two readings of the clock.
abbrev pub after_requests :
    {Limiter : Type 0}
    → Limiter
    → (Instant → Limiter → Bool × Limiter)
    → List (String × Instant × Instant)
    → List (String × Visitor Limiter)
    → List (String × Visitor Limiter)
after_requests new_limiter take_token [] vs = vs
after_requests new_limiter take_token ((ip, seen, now) ∷ es) vs =
    after_requests new_limiter take_token es (allow new_limiter take_token ip seen now vs).1

others_keep :
    {Limiter : Type 0} (new_limiter : Limiter) (take_token : Instant → Limiter → Bool × Limiter)
    (ip : String) (es : List (String × Instant × Instant)) (vs : List (String × Visitor Limiter))
    → All (λ e. e.0 ≢ ip) es
    → visitor_of ip (after_requests new_limiter take_token es vs) ≡ visitor_of ip vs
unfolding allow
others_keep new_limiter take_token ip [] vs a = refl
others_keep new_limiter take_token ip ((other, seen, now) ∷ es) vs (ne, a) =
    others_keep new_limiter take_token ip es _ a ∙ visitor_of-put_ne other ip _ vs ne

-- Clients do not spend each other's budget: whatever the bucket is, the requests of other clients
-- do not change what the limiter decides about a client.
pub allow_isolated :
    {Limiter : Type 0} (new_limiter : Limiter) (take_token : Instant → Limiter → Bool × Limiter)
    (ip : String) (seen now : Instant) (es : List (String × Instant × Instant))
    (vs : List (String × Visitor Limiter))
    → All (λ e. e.0 ≢ ip) es
    → (allow new_limiter take_token ip seen now (after_requests new_limiter take_token es vs)).0
      ≡ (allow new_limiter take_token ip seen now vs).0
unfolding allow
allow_isolated new_limiter take_token ip seen now es vs a =
    rw (others_keep new_limiter take_token ip es vs a)

-- Three minutes, in nanoseconds.
abbrev pub three_minutes : ℤ
three_minutes = pos (3 * (60 * 1000000000))

-- At the instant `now`, the visitor was seen in the last three minutes.
abbrev pub SeenLately : {Limiter : Type 0} → Instant → Visitor Limiter → Type 0
SeenLately now v = now ≤ℤ v.last_seen +ℤ three_minutes
