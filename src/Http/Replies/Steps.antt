-- ===== src/Http/Replies/Steps.antt =====
-- A handler that answers by one response, step by step.
use taskflow_api.Base.{
  String, ℕ, ◌≡◌, refl, ◌⊎◌, inl, inr, Option, none, some, List, [], ◌∷◌, ◌++◌, Bool, true, false,
  if◌then◌else◌, ℤ,
}
use taskflow_api.Domain.{Int64}
use taskflow_api.Domain.Errors.{
  not_found, already_exists, invalid_credentials, token_invalid, forbidden, validation, is, Error,
  error_text, Result, ok, err,
}
use taskflow_api.Store.{World, Io}
use taskflow_api.Strconv.{NumError}
use taskflow_api.Http.Answers.{
  Request, Conn, Headers, Payload, respond, respond_error, set_header, write_header, write,
  write_domain_error, log_error,
}
use taskflow_api.Http.Requests.{if_valid, with_body, answer, with_service}
use taskflow_api.Http.TaskHandler.{with_user, with_task_id}

-- A status was sent; 204 has no body, and another status has one value in its body.
pub record Answered (c : Conn) : Type 0 where
  pub status : ℕ
  pub headers : Headers
  pub sent : c.writer.sent ≡ some (status, headers)
  pub body : ((status ≡ 204) × (c.writer.body ≡ [])) ⊎ ((p : Payload) × (c.writer.body ≡ p ∷ []))

-- One response was written, at the end of calls that changed the world and the log.
pub record Reply (c answered : Conn) : Type 0 where
  pub status : ℕ
  pub payload : Option Payload
  pub world : World
  pub log : List (String × String)
  pub proper : ((status ≡ 204) × (payload ≡ none)) ⊎ ((p : Payload) × (payload ≡ some p))
  pub same : answered ≡ respond status payload (record c { world = world; log = log })

abbrev pub Answers : (Conn → Conn) → Type 0
Answers h = (c : Conn) → Reply c (h c)

pub respond-some : (status : ℕ) (p : Payload) → Answers (respond status (some p))
respond-some status p c = record {
  status = status;
  payload = some p;
  world = c.world;
  log = c.log;
  proper = inr (p, refl);
  same = refl;
}

pub respond-none : Answers (respond 204 none)
respond-none c = record {
  status = 204;
  payload = none;
  world = c.world;
  log = c.log;
  proper = inl (refl, refl);
  same = refl;
}

-- A response after a change of the world and the log.
after_change :
    (c answered : Conn) (w : World) (log : List (String × String))
    → Reply (record c { world = w; log = log }) answered
    → Reply c answered
after_change c answered w log r = record {
  status = r.status;
  payload = r.payload;
  world = r.world;
  log = r.log;
  proper = r.proper;
  same = r.same;
}

-- A response to a client that was told nothing before.
pub Reply-Answered :
    (c answered : Conn)
    → Reply c answered
    → c.writer.sent ≡ none
    → c.writer.body ≡ []
    → Answered answered
unfolding respond set_header write_header write
Reply-Answered c answered r unsent empty = elim r.proper [
  | inl (no_content, bare) ↦ rw r.same (record {
    status = r.status;
    headers = (set_header "Content-Type" "application/json" c.writer).headers;
    sent = rw (bare, unsent);
    body = inl (no_content, rw (bare, empty));
  })
  | inr (p, full) ↦ rw r.same (record {
    status = r.status;
    headers = (set_header "Content-Type" "application/json" c.writer).headers;
    sent = rw (full, unsent);
    body = inr (p, rw (full, empty));
  })
]

pub error-Answers :
    (r : Request) (status : ℕ) (code message : String)
    → Answers (respond_error r status code message)
unfolding respond_error
error-Answers r status code message = respond-some status _

pub if-Answers :
    (b : Bool) (h k : Conn → Conn) → Answers h → Answers k → Answers (λ c. if b then h c else k c)
if-Answers true h k a b = a
if-Answers false h k a b = b

write_domain_error-Answers : (r : Request) (e : Error) → Answers (write_domain_error r e)
unfolding write_domain_error
write_domain_error-Answers r e = if-Answers (is e not_found) _ _ (error-Answers r _ _ _) (
    if-Answers (is e already_exists) _ _ (error-Answers r _ _ _) (
      if-Answers (is e invalid_credentials) _ _ (error-Answers r _ _ _) (
        if-Answers (is e token_invalid) _ _ (error-Answers r _ _ _) (
          if-Answers (is e forbidden) _ _ (error-Answers r _ _ _) (
            if-Answers (is e validation) _ _ (error-Answers r _ _ _) (λ c.
              after_change c _ c.world (c.log ++ ("unhandled error", error_text e) ∷ [])
                (error-Answers r _ _ _ (log_error "unhandled error" e c))))))))

if_valid-Answers :
    (r : Request) (o : Option Error) (next : Conn → Conn)
    → Answers next
    → Answers (if_valid r o next)
if_valid-Answers r none next a = a
if_valid-Answers r (some e) next a = error-Answers r _ _ _

pub with_body-Answers :
    {A : Type 0} (r : Request) (res : Result A) (validate : A → Option Error)
    (next : A → Conn → Conn)
    → ((a : A) → Answers (next a))
    → Answers (with_body r res validate next)
with_body-Answers r (ok req) validate next a = if_valid-Answers r (validate req) (next req) (a req)
with_body-Answers r (err e) validate next a = error-Answers r _ _ _

answer-Answers :
    {A : Type 0} (r : Request) (res : Result A) (next : A → Conn → Conn)
    → ((a : A) → Answers (next a))
    → Answers (answer r res next)
answer-Answers r (ok x) next a = a x
answer-Answers r (err e) next a = write_domain_error-Answers r e

pub with_service-Answers :
    {A : Type 0} (r : Request) (m : Io A) (next : A → Conn → Conn)
    → ((a : A) → Answers (next a))
    → Answers (with_service r m next)
with_service-Answers r m next a c =
    after_change c _ (m c.world).1 c.log
      (answer-Answers r (m c.world).0 next a (record c { world = (m c.world).1 }))

pub with_user-Answers :
    (r : Request) (o : Option Int64) (next : Int64 → Conn → Conn)
    → ((u : Int64) → Answers (next u))
    → Answers (with_user r o next)
with_user-Answers r (some u) next a = a u
with_user-Answers r none next a = error-Answers r _ _ _

pub with_task_id-Answers :
    (r : Request) (parsed : ℤ × Option NumError) (next : Int64 → Conn → Conn)
    → ((k : Int64) → Answers (next k))
    → Answers (with_task_id r parsed next)
with_task_id-Answers r (k, none) next a = a k
with_task_id-Answers r (k, some e) next a = error-Answers r _ _ _
