-- ===== src/Config/Validation.antt =====
-- What settings config.go accepts.
use taskflow_api.Base.{
  inl, inr, ◌≡◌, ◌≢◌, refl, ◌↔◌, ◌≤◌, ◌≤ℤ◌, ltb, leb_ℤ, ltb_ℤ, String, Bool, true, false, ◌||◌,
  Option, none, some, List, [], ◌∷◌, str_eq, str_eq_iff, ℤ, pos, negsuc, arith, Bool-cases,
  if◌then◌else◌,
}
use taskflow_api.Text.{byte_length}
use taskflow_api.Config.{
  Config, Host, Float64, nan, infinite, finite, float_leb_zero, default_jwt_secret, complain,
  complain_production, problems, join, validate, settings, loaded, load,
}

-- A rate that is not a number, or a positive one: infinite, or with a significand of at least 1.
abbrev pub IsRate : Float64 → Type 0
IsRate nan = Unit
IsRate (infinite negative) = negative ≡ false
IsRate (finite negative significand exponent) = (negative ≡ false) × (1 ≤ significand)

-- What the validation asks of the settings.
pub record IsSound (c : Config) : Type 0 where
  pub server_port : c.server_port ≢ ""
  pub db : (c.db.host ≢ "") × (c.db.port ≢ "") × (c.db.user ≢ "") × (c.db.name ≢ "")
  pub jwt_secret : c.jwt_secret ≢ ""
  pub production :
      c.env ≡ "production" → (c.jwt_secret ≢ default_jwt_secret) × (32 ≤ byte_length c.jwt_secret)
  pub rate_limit_rps : IsRate c.rate_limit_rps
  pub rate_limit_burst : pos 1 ≤ℤ c.rate_limit_burst
  pub request_timeout : pos 1 ≤ℤ c.request_timeout
  pub max_body_bytes : pos 1 ≤ℤ c.max_body_bytes
  pub jwt_expires_in : pos 1 ≤ℤ c.jwt_expires_in
  pub refresh_token_ttl : pos 1 ≤ℤ c.refresh_token_ttl
  pub longer : ¬ (c.refresh_token_ttl ≤ℤ c.jwt_expires_in)
  pub shutdown_drain_delay : pos 0 ≤ℤ c.shutdown_drain_delay

complain-nil_iff :
    (bad : Bool) (text : String) (errs : List String)
    → (complain bad text errs ≡ []) ↔ ((bad ≡ false) × (errs ≡ []))
unfolding complain
complain-nil_iff true text [] = ground arith
complain-nil_iff true text (e ∷ es) = ground arith
complain-nil_iff false text errs = ground arith

join-none_iff : (errs : List String) → (join errs ≡ none) ↔ (errs ≡ [])
join-none_iff [] = ground arith
join-none_iff (e ∷ es) = ground arith

str_eq-false_iff : (s t : String) → (str_eq s t ≡ false) ↔ (s ≢ t)
str_eq-false_iff s t = ground (arith, str_eq_iff s t)

production-nil_iff :
    (c : Config) (errs : List String)
    → ((if str_eq c.env "production" then complain_production c errs else errs) ≡ []) ↔ (
        (c.env ≡ "production"
          → (c.jwt_secret ≢ default_jwt_secret) × (32 ≤ byte_length c.jwt_secret))
        × (errs ≡ []))
unfolding complain_production
production-nil_iff c errs =
    let short = ltb (byte_length c.jwt_secret) 32 in
    let known = str_eq c.jwt_secret default_jwt_secret in
    let long_enough : (short ≡ false) ↔ (32 ≤ byte_length c.jwt_secret) = ground arith in
    let outer =
      complain-nil_iff short "JWT_SECRET must be at least 32 characters in production" (
        complain known "JWT_SECRET must be overridden from its default value in production" errs) in
    let inner =
      complain-nil_iff known "JWT_SECRET must be overridden from its default value in production"
        errs in
    elim (Bool-cases (str_eq c.env "production")) [
      | inl e ↦ rw e (
        λ h.
            let (long, rest) = outer.0 h in
            let (fresh, none_before) = inner.0 rest in
            ((λ prod. ((str_eq-false_iff _ _).0 fresh, long_enough.0 long)), none_before),
        λ (holds, none_before).
            let (fresh, long) = holds ((str_eq_iff _ _).0 e) in
            outer.1 (long_enough.1 long, inner.1 ((str_eq-false_iff _ _).1 fresh, none_before)),
      )
      | inr e ↦ rw e (
        λ h. ((λ prod. absurd ((str_eq-false_iff _ _).0 e prod)), h),
        λ (holds, none_before). none_before,
      )
    ]

module _ {P Q : Type 0} where
  -- One more test: nothing is complained of when it holds and nothing was before.
  and_then :
      (bad : Bool) (text : String) (errs : List String)
      → (bad ≡ false) ↔ P
      → (errs ≡ []) ↔ Q
      → (complain bad text errs ≡ []) ↔ (P × Q)
  and_then bad text errs p q =
      let both = complain-nil_iff bad text errs in
      (
        λ h. let (good, none_before) = both.0 h in (p.0 good, q.0 none_before),
        λ (a, b). both.1 (p.1 a, q.1 b),
      )

  and_iff : {A B : Type 0} → (A ↔ (P × B)) → (B ↔ Q) → A ↔ (P × Q)
  and_iff f g = (λ a. let (p, b) = f.0 a in (p, g.0 b), λ (p, q). f.1 (p, g.1 q))

positive_iff : (n : ℤ) → (leb_ℤ n (pos 0) ≡ false) ↔ (pos 1 ≤ℤ n)
positive_iff (pos n) = ground arith
positive_iff (negsuc n) = ground arith

not_negative_iff : (n : ℤ) → (ltb_ℤ n (pos 0) ≡ false) ↔ (pos 0 ≤ℤ n)
not_negative_iff (pos n) = ground arith
not_negative_iff (negsuc n) = ground arith

IsRate-iff : (f : Float64) → (float_leb_zero f ≡ false) ↔ IsRate f
IsRate-iff nan = ground arith
IsRate-iff (infinite negative) = ground arith
IsRate-iff (finite negative significand exponent) = ground arith

longer_iff : (a b : ℤ) → (leb_ℤ a b ≡ false) ↔ (¬ (a ≤ℤ b))
longer_iff a b = ground arith

four_names :
    (a b c d : String)
    → ((str_eq a "" || str_eq b "" || str_eq c "" || str_eq d "") ≡ false)
      ↔ ((a ≢ "") × (b ≢ "") × (c ≢ "") × (d ≢ ""))
four_names a b c d = ground (
  arith,
  str_eq-false_iff a "",
  str_eq-false_iff b "",
  str_eq-false_iff c "",
  str_eq-false_iff d "",
)

-- The tests in the order of the code, the last one first.
problems-nil_iff :
    (c : Config)
    → (problems c ≡ []) ↔ (
        (pos 0 ≤ℤ c.shutdown_drain_delay)
        × ((¬ (c.refresh_token_ttl ≤ℤ c.jwt_expires_in))
            × ((pos 1 ≤ℤ c.refresh_token_ttl)
                × ((pos 1 ≤ℤ c.jwt_expires_in)
                    × ((pos 1 ≤ℤ c.max_body_bytes)
                        × ((pos 1 ≤ℤ c.request_timeout)
                            × ((pos 1 ≤ℤ c.rate_limit_burst)
                                × (IsRate c.rate_limit_rps
                                    × ((c.env ≡ "production"
                                          → (c.jwt_secret ≢ default_jwt_secret)
                                            × (32 ≤ byte_length c.jwt_secret))
                                        × ((c.jwt_secret ≢ "")
                                            × (((c.db.host ≢ "")
                                                  × (c.db.port ≢ "")
                                                  × (c.db.user ≢ "")
                                                  × (c.db.name ≢ ""))
                                                × ((c.server_port ≢ "") × Unit {0}))))))))))))
unfolding problems
problems-nil_iff c = and_then _ _ _ (not_negative_iff c.shutdown_drain_delay) (
    and_then _ _ _ (longer_iff c.refresh_token_ttl c.jwt_expires_in) (
      and_then _ _ _ (positive_iff c.refresh_token_ttl) (
        and_then _ _ _ (positive_iff c.jwt_expires_in) (
          and_then _ _ _ (positive_iff c.max_body_bytes) (
            and_then _ _ _ (positive_iff c.request_timeout) (
              and_then _ _ _ (positive_iff c.rate_limit_burst) (
                and_then _ _ _ (IsRate-iff c.rate_limit_rps) (
                  and_iff (production-nil_iff c _) (
                    and_then _ _ _ (str_eq-false_iff c.jwt_secret "") (
                      and_then _ _ _ (four_names c.db.host c.db.port c.db.user c.db.name) (
                        and_then _ _ _ (str_eq-false_iff c.server_port "")
                          ((λ h. tt), λ h. refl))))))))))))

-- The settings pass validation exactly when they are sound: nothing that must be there is empty, a
-- production secret is long and not the one of .env.example, the rate of requests is positive or not
-- a number, the burst, the largest body, the time-out and the lifetimes of the tokens are positive, a
-- refresh token lives longer than an access token, and the drain delay is not negative.
pub validate_iff : (c : Config) → (validate c ≡ none) ↔ IsSound c
unfolding validate
validate_iff c = (
  λ h.
      let (
        drain,
        (
          longer,
          (refresh, (access, (body, (timeout, (burst, (rps, (prod, (secret, (db, (port, _)))))))))),
        ),
      ) =
        (problems-nil_iff c).0 ((join-none_iff (problems c)).0 h) in
      record {
        server_port = port;
        db = db;
        jwt_secret = secret;
        production = prod;
        rate_limit_rps = rps;
        rate_limit_burst = burst;
        request_timeout = timeout;
        max_body_bytes = body;
        jwt_expires_in = access;
        refresh_token_ttl = refresh;
        longer = longer;
        shutdown_drain_delay = drain;
      },
  λ s. (join-none_iff (problems c)).1 (
      (problems-nil_iff c).1 (
        s.shutdown_drain_delay,
        (
          s.longer,
          (
            s.refresh_token_ttl,
            (
              s.jwt_expires_in,
              (
                s.max_body_bytes,
                (
                  s.request_timeout,
                  (
                    s.rate_limit_burst,
                    (s.rate_limit_rps, (s.production, (s.jwt_secret, (s.db, (s.server_port, tt))))),
                  ),
                ),
              ),
            ),
          ),
        ),
      )),
)

loaded_iff :
    (read c : Config) (found : Option (List String))
    → (loaded read found ≡ inl c) ↔ ((c ≡ read) × (found ≡ none))
loaded_iff read c none = ground arith
loaded_iff read c (some errs) = ground arith

-- Load hands out settings exactly if those that it read are sound.
pub load-IsSound :
    (host : Host) (c : Config) → (load host ≡ inl c) ↔ ((c ≡ settings host) × IsSound c)
unfolding load
load-IsSound host c =
    let end = loaded_iff (settings host) c (validate (settings host)) in
    (
      λ h. let (same, fine) = end.0 h in (same, (validate_iff c).0 (rw same fine)),
      λ (same, s). end.1 (same, rw same at ((validate_iff c).1 s)),
    )
