-- ===== src/Http/Statuses.antt =====
-- The statuses that writeDomainError of handler/errors.go chooses.
use taskflow_api.Base.{
  String, ℕ, ◌≡◌, ◌≢◌, ◌∙◌, ◌↔◌, Option, none, some, Bool, true, false, arith, if◌then◌else◌,
}
use taskflow_api.Domain.Errors.{
  Sentinel, not_found, already_exists, invalid_credentials, token_invalid, forbidden, validation,
  is, error_text, Error,
}
use taskflow_api.Http.Answers.{
  Request, Conn, respond, respond_error, set_header, write_header, write, write_domain_error,
  log_error,
}
use taskflow_api.Http.Health.{ready}

sent_error :
    (r : Request) (status : ℕ) (code message : String) (c : Conn)
    → c.writer.sent ≡ none
    → (respond_error r status code message c).writer.sent
      ≡ some (status, (set_header "Content-Type" "application/json" c.writer).headers)
unfolding respond_error respond set_header write_header write
sent_error r status code message c unsent = rw unsent

-- The status of an error's answer, test by test.
status_of : Error → ℕ
status_of e =
    if is e not_found
    then 404
    else if is e already_exists
    then 409
    else if is e invalid_credentials
    then 401
    else if is e token_invalid
    then 401
    else if is e forbidden
    then 403
    else if is e validation
    then 400
    else 500

domain_error_status :
    (r : Request) (e : Error) (c : Conn)
    → c.writer.sent ≡ none
    → (write_domain_error r e c).writer.sent
      ≡ some (status_of e, (set_header "Content-Type" "application/json" c.writer).headers)
unfolding write_domain_error status_of
domain_error_status r e c unsent = ground (
  arith,
  sent_error r 404 "NOT_FOUND" (error_text e) c unsent,
  sent_error r 409 "ALREADY_EXISTS" (error_text e) c unsent,
  sent_error r 401 "UNAUTHORIZED" (error_text e) c unsent,
  sent_error r 403 "FORBIDDEN" (error_text e) c unsent,
  sent_error r 400 "VALIDATION_ERROR" (error_text e) c unsent,
  sent_error r 500 "INTERNAL_ERROR" "internal server error" (log_error "unhandled error" e c)
      unsent,
)

status_500 : (e : Error) → status_of e ≡ 500 → (s : Sentinel) → is e s ≡ false
unfolding status_of
status_500 e h not_found = ground arith
status_500 e h already_exists = ground arith
status_500 e h invalid_credentials = ground arith
status_500 e h token_invalid = ground arith
status_500 e h forbidden = ground arith
status_500 e h validation = ground arith

ok_500 : (e : Error) → ((s : Sentinel) → is e s ≡ false) → status_of e ≡ 500
unfolding status_of
ok_500 e none_of = rw (
  none_of not_found,
  none_of already_exists,
  none_of invalid_credentials,
  none_of token_invalid,
  none_of forbidden,
  none_of validation,
)

-- The mapping of errors to statuses is complete: if nothing was sent before, writeDomainError sends
-- 500 exactly when the error wraps none of the sentinel errors of the domain.
pub internal_iff :
    (r : Request) (e : Error) (c : Conn)
    → c.writer.sent ≡ none
    → ((write_domain_error r e c).writer.sent
        ≡ some (500, (set_header "Content-Type" "application/json" c.writer).headers))
      ↔ ((s : Sentinel) → is e s ≡ false)
internal_iff r e c unsent =
    let status = domain_error_status r e c unsent in
    (λ h. status_500 e (cc (h, status)), λ none_of. status ∙ rw (ok_500 e none_of))

-- The instance is ready exactly when it is not draining and the database answers: if nothing was
-- sent before, /readyz sends 200 then, and another status otherwise.
pub ready_iff :
    (ping : Option Error) (version : String) (draining : Option Bool) (r : Request) (c : Conn)
    → c.writer.sent ≡ none
    → ((ready ping version draining r c).writer.sent
        ≡ some (200, (set_header "Content-Type" "application/json" c.writer).headers))
      ↔ ((draining ≢ some true) × (ping ≡ none))
unfolding ready respond set_header write_header write
ready_iff none version none r c unsent = rw unsent (ground arith)
ready_iff none version (some true) r c unsent = rw unsent (ground arith)
ready_iff none version (some false) r c unsent = rw unsent (ground arith)
ready_iff (some e) version none r c unsent = rw unsent (ground arith)
ready_iff (some e) version (some true) r c unsent = rw unsent (ground arith)
ready_iff (some e) version (some false) r c unsent = rw unsent (ground arith)
