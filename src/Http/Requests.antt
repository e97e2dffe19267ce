-- ===== src/Http/Requests.antt =====
-- The steps that the handlers of internal/httpapi/handler share: a body is decoded and validated,
-- and a service is called.
use taskflow_api.Base.{String, Option, none, some}
use taskflow_api.Domain.Errors.{Error, Result, ok, err, error_text}
use taskflow_api.Store.{Io}
use taskflow_api.Http.Dto.{SignupRequest, LoginRequest, RefreshRequest, LogoutRequest, TaskRequest}
use taskflow_api.Http.Answers.{Conn, Request, respond_error, write_domain_error}

-- `json.NewDecoder(r.Body).Decode(&req)`, for each type of request: the text of JSON, and a body
-- that is too large or cannot be read, are left to it.
pub record Json : Type 0 where
  pub signup : String → Result SignupRequest
  pub login : String → Result LoginRequest
  pub refresh : String → Result RefreshRequest
  pub logout : String → Result LogoutRequest
  pub task : String → Result TaskRequest

-- `if err := req.Validate(); err != nil { … return }`
abbrev pub if_valid : Request → Option Error → (Conn → Conn) → Conn → Conn
if_valid r none next c = next c
if_valid r (some e) next c = respond_error r 400 "VALIDATION_ERROR" (error_text e) c

-- `if err := json.NewDecoder(r.Body).Decode(&req); err != nil { … return }`, and the validation.
abbrev pub with_body :
    {A : Type 0} → Request → Result A → (A → Option Error) → (A → Conn → Conn) → Conn → Conn
with_body r (ok req) validate next c = if_valid r (validate req) (next req) c
with_body r (err e) validate next c = respond_error r 400 "BAD_REQUEST" "invalid request body" c

abbrev pub answer : {A : Type 0} → Request → Result A → (A → Conn → Conn) → Conn → Conn
answer r (ok a) next c = next a c
answer r (err e) next c = write_domain_error r e c

-- `… err := h.service.Method(…); if err != nil { writeDomainError(w, r, err); return }`
abbrev pub with_service : {A : Type 0} → Request → Io A → (A → Conn → Conn) → Conn → Conn
with_service r m next c = answer r (m c.world).0 next (record c { world = (m c.world).1 })
