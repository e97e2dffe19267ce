-- ===== src/Tests/Identity.antt =====
-- An access token at a concrete input.
use taskflow_api.Base.{
  ◌≡◌, refl, sym, Bool, Bool-cases, inl, inr, true, ◌&&◌, if◌then◌else◌, str_eq, str_eq_iff, eq_ℤ,
  eq_ℤ_iff, pos, arith,
}
use taskflow_api.Domain.Errors.{other, ok, err}
use taskflow_api.Service.Tokens.{Jwt, RegisteredClaims, TokenManager}
use taskflow_api.Service.Identity.{IsJwt}

abbrev pub known : RegisteredClaims
known = record { subject = "1"; issued_at = pos 0; expires_at = pos 901 }

abbrev is_known : RegisteredClaims → RegisteredClaims → Bool
is_known known c =
    str_eq c.subject known.subject
    && eq_ℤ c.issued_at known.issued_at
    && eq_ℤ c.expires_at known.expires_at

-- A library that signs one token.
abbrev pub one_token : RegisteredClaims → Jwt
one_token known = record {
  numeric_date = λ t. t;
  signed_string =
      λ secret claims. if is_known known claims then ok "token" else err (other "key is invalid");
  parse_with_claims = λ now token key. ok (known, true);
}

known_eq : (known c : RegisteredClaims) → is_known known c ≡ true → known ≡ c
known_eq known c h =
    let subject : c.subject ≡ known.subject = ground (arith, str_eq_iff c.subject known.subject) in
    let issued : c.issued_at ≡ known.issued_at =
      ground (arith, eq_ℤ_iff c.issued_at known.issued_at) in
    let expires : c.expires_at ≡ known.expires_at =
      ground (arith, eq_ℤ_iff c.expires_at known.expires_at) in
    λ i. record { subject = sym subject i; issued_at = sym issued i; expires_at = sym expires i }

pub one_token-IsJwt : (known : RegisteredClaims) → IsJwt (one_token known)
one_token-IsJwt known secret token claims now key signed young k =
    elim (Bool-cases (is_known known claims)) [
      | inl e ↦ let same = known_eq known claims e in rw same refl
      | inr e ↦ absurd (cc (rw e at signed))
    ]

abbrev manager : TokenManager
manager = record { secret = "secret"; expires_in = pos 900 }
