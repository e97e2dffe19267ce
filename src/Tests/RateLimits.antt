-- ===== src/Tests/RateLimits.antt =====
-- The two limiters at concrete inputs.
use taskflow_api.Base.{
  ℕ, zero, suc, String, ◌≡◌, ◌≢◌, refl, Bool, true, false, List, [], ◌∷◌, All, pos, str_eq_iff,
}
use taskflow_api.Domain.{Instant}
use taskflow_api.Sql.{find_row}
use taskflow_api.Http.RateLimit.{Visitor, visitor_of, allow}
use taskflow_api.Http.RateLimit.Visitors.{after_requests, allow_isolated}
use taskflow_api.Http.RateLimit.Windows.{decisions, allowed, window_allows_burst}

-- A bucket of two tokens that never fills up again.
abbrev take_token : Instant → ℕ → Bool × ℕ
take_token now zero = (false, 0)
take_token now (suc n) = (true, n)

abbrev visitors : List (String × Visitor ℕ)
visitors = ("a", record { limiter = 0; last_seen = pos 5 }) ∷ []

abbrev busy : List (String × Instant × Instant)
busy = ("b", pos 6, pos 6) ∷ ("c", pos 7, pos 7) ∷ ("b", pos 8, pos 8) ∷ []

apart : All (λ e. e.0 ≢ "a") busy
apart = (other_b, (other_c, (other_b, tt)))
  where
    other_b : ◌≢◌ {A = String} "b" "a"
    other_b h = let e : false ≡ true = (str_eq_iff "b" "a").1 h in cc e

    other_c : ◌≢◌ {A = String} "c" "a"
    other_c h = let e : false ≡ true = (str_eq_iff "c" "a").1 h in cc e

allow_isolated_example :
    (allow 2 take_token "a" (pos 9) (pos 9) (after_requests 2 take_token busy visitors)).0 ≡ false
unfolding allow visitor_of
allow_isolated_example = allow_isolated 2 take_token "a" (pos 9) (pos 9) busy visitors apart

-- The sweep comes three minutes after the last request, to the nanosecond.
abbrev sweep_clock : String → Instant
sweep_clock ip = pos 180000000005

window_allows_burst_example :
    allowed (decisions "a" (pos 1) (pos 2) (1000 ∷ 1100 ∷ 1999 ∷ []) []) ≡ 2
unfolding find_row
window_allows_burst_example =
    window_allows_burst "a" (pos 2) 1000 (1100 ∷ 1999 ∷ []) [] refl (refl, (refl, tt))
