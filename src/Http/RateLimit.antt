-- ===== src/Http/RateLimit.antt =====
-- internal/httpapi/middleware: ratelimit.go, ratelimit_memory.go and ratelimit_redis.go. The token
-- bucket of golang.org/x/time/rate is a parameter; of Redis, the two commands of the script are
-- modelled on its keys.
pub mod Windows
pub mod Visitors
use taskflow_api.Base.{
  ℕ, suc, ◌+◌, String, Bool, true, false, Option, none, some, List, [], ◌∷◌, str_eq, ltb,
  if◌then◌else◌, ℤ, pos, ◌+ℤ◌, ltb_ℤ, leb_ℤ,
}
use taskflow_api.Domain.{Instant}
use taskflow_api.Domain.Errors.{Error, wrapf, Result, ok, err}
use taskflow_api.Store.{World}
use taskflow_api.Strconv.{format_int}
use taskflow_api.Http.Answers.{Request, Conn, Handler, respond_error, log_error}
use Prim.Native.String.{◌++◌ as str_append}

-- `clientIP`: the header X-Forwarded-For, or the host of the remote address, as `net.SplitHostPort`
-- splits it, or all of the address.
abbrev host_or : Option String → String → String
host_or none addr = addr
host_or (some host) addr = host

unfoldable pub client_ip : (String → Option String) → String → Request → String
client_ip split_host_port remote_addr r = do
  let fwd = r.header "X-Forwarded-For"
  if str_eq fwd "" then host_or (split_host_port remote_addr) remote_addr else fwd

abbrev pub gated : Handler → Request → Result Bool → Conn → Conn
gated next r (ok true) c = next r c
gated next r (ok false) c = respond_error r 429 "RATE_LIMITED" "rate limit exceeded, slow down" c
gated next r (err e) c = next r (log_error "rate limiter backend error, allowing request" e c)

-- `limiterBackend`: its `allow`, which sees its client and the world.
abbrev pub Allow : Type 0
Allow = String → World → Result Bool × World

-- `RateLimiter.Middleware`, with its backend's `allow`: an error of the backend lets the request
-- pass.
unfoldable pub limit : Allow → (Request → String) → Handler → Handler
limit allow ip next r c =
    let (decision, w) = allow (ip r) c.world in gated next r decision (record c { world = w })

-- `NewRateLimiter`, with the lines that it logs: the client is nil, or its ping is answered.
unfoldable pub new_rate_limiter : Option (Option Error) → Allow → Allow → Allow × List String
new_rate_limiter none redis in_memory =
    (in_memory, "rate limiting backed by in-memory token bucket (single-instance only)" ∷ [])
new_rate_limiter (some none) redis in_memory = (redis, "rate limiting backed by redis" ∷ [])
new_rate_limiter (some (some e)) redis in_memory = (
  in_memory,
  "redis unreachable, falling back to in-memory rate limiting"
      ∷ "rate limiting backed by in-memory token bucket (single-instance only)" ∷ [],
)

-- A visitor, with its token bucket.
pub record Visitor (Limiter : Type 0) : Type 0 where
  pub limiter : Limiter
  pub last_seen : Instant

module _ {Limiter : Type 0} where
  unfoldable pub visitor_of : String → List (String × Visitor Limiter) → Option (Visitor Limiter)
  visitor_of ip [] = none
  visitor_of ip ((k, v) ∷ vs) = let rest = visitor_of ip vs in if str_eq k ip then some v else rest

  -- `b.visitors[ip] = v`
  unfoldable pub put :
      String → Visitor Limiter → List (String × Visitor Limiter) → List (String × Visitor Limiter)
  put ip v [] = (ip, v) ∷ []
  put ip v ((k, u) ∷ vs) =
      let rest = put ip v vs in if str_eq k ip then (k, v) ∷ vs else (k, u) ∷ rest

  abbrev limiter_or : Option (Visitor Limiter) → Limiter → Limiter
  limiter_or none new_limiter = new_limiter
  limiter_or (some v) new_limiter = v.limiter

  -- `inMemoryBackend.allow`, with the bucket of a new visitor, the bucket's `Allow`, and the two
  -- readings of the clock.
  unfoldable pub allow :
      Limiter
      → (Instant → Limiter → Bool × Limiter)
      → String
      → Instant
      → Instant
      → List (String × Visitor Limiter)
      → Bool × List (String × Visitor Limiter)
  allow new_limiter take_token ip seen now vs =
      let (allowed, l) = take_token now (limiter_or (visitor_of ip vs) new_limiter) in
      (allowed, put ip (record { limiter = l; last_seen = seen }) vs)

  -- `time.Since(v.lastSeen) > 3*time.Minute`
  abbrev pub idle : Instant → Visitor Limiter → Bool
  idle now v = ltb_ℤ (v.last_seen +ℤ pos 180000000000) now

  -- One sweep of `cleanupLoop`, which reads the clock at each visitor.
  unfoldable pub sweep :
      (String → Instant) → List (String × Visitor Limiter) → List (String × Visitor Limiter)
  sweep clock [] = []
  sweep clock ((k, v) ∷ vs) =
      let rest = sweep clock vs in if idle (clock k) v then rest else (k, v) ∷ rest

-- A key of Redis with a counter, and the millisecond at which it expires.
pub record Counter : Type 0 where
  pub key : String
  pub count : ℕ
  pub deadline : ℕ

abbrev pub window_millis : ℕ
window_millis = 1000

-- The script `incrAndExpire`: INCR, which begins at 1 where there is no key or it has expired, and
-- PEXPIRE where the counter is 1.
unfoldable pub incr_and_expire : String → ℕ → List Counter → ℕ × List Counter
incr_and_expire key now [] =
    (1, record { key = key; count = 1; deadline = now + window_millis } ∷ [])
incr_and_expire key now (k ∷ ks) =
    let (n, rest) = incr_and_expire key now ks in
    if str_eq k.key key
    then (if ltb now k.deadline
        then (suc k.count, record k { count = suc k.count } ∷ ks)
        else (1, record { key = key; count = 1; deadline = now + window_millis } ∷ ks))
    else (n, k ∷ rest)

-- The key of a client in a second of the Unix clock.
unfoldable pub window_key : String → ℤ → String
window_key ip unix = str_append "ratelimit:" (str_append ip (str_append ":" (format_int unix)))

-- The end of `redisBackend.allow`: the script's counter, or its error.
unfoldable pub within : ℤ → Result ℕ → Result Bool
within burst (ok count) = ok (leb_ℤ (pos count) burst)
within burst (err e) = err (wrapf "redis rate limit check: " e "")

-- `redisBackend.allow`, at a second of the program's clock and a millisecond of Redis's: the script
-- runs, or the client fails to run it.
abbrev pub redis_allow :
    ℤ → Option Error → String → ℤ → ℕ → List Counter → Result Bool × List Counter
redis_allow burst none ip unix now ks =
    let (count, ks') = incr_and_expire (window_key ip unix) now ks in (within burst (ok count), ks')
redis_allow burst (some e) ip unix now ks = (within burst (err e), ks)
