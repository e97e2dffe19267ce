-- ===== src/Http/Replies/Calls.antt =====
-- Which calls of the services the handlers of internal/httpapi/handler make.
use taskflow_api.Base.{
  ℕ, ap, sym, ◌∙◌, String, ◌≡◌, refl, Option, none, some, Bool, true, false, if◌then◌else◌, ℤ,
  str_eq, ◌&&◌, not,
}
use taskflow_api.Domain.{Int64, valid}
use taskflow_api.Domain.Errors.{
  not_found, already_exists, invalid_credentials, token_invalid, forbidden, validation, is, Error,
  Result, ok, err,
}
use taskflow_api.Store.{Tables, World, Io}
use taskflow_api.Strconv.{NumError, parse_int}
use taskflow_api.Service.Tasks
use taskflow_api.Server
use taskflow_api.Server.{
  Deployment, task_service, Call, signs_up, logs_in, refreshes, logs_out, creates, lists, gets,
  updates, deletes, perform,
}
use taskflow_api.Server.Board.Isolation.{caller}
use taskflow_api.Http.Dto.{
  validate_signup, validate_login, validate_refresh, validate_logout, validate_task,
}
use taskflow_api.Http.Answers.{
  Request, Conn, Payload, respond, respond_error, write_domain_error, log_error,
}
use taskflow_api.Http.Requests.{Json, if_valid, with_body, answer, with_service}
use taskflow_api.Http.AuthHandler
use taskflow_api.Http.TaskHandler
use taskflow_api.Http.TaskHandler.{with_user, with_task_id, parse_task_id, status_or_pending}

-- The tables are left as they were, or they are what one call makes of them.
pub data Act (p : Deployment) (Q : Call → Type 0) (t u : Tables) : Type 0 where
  idles : u ≡ t → Act p Q t u
  acts : (x : Call) (w : World) → Q x → w.tables ≡ t → u ≡ (perform p x w).tables → Act p Q t u

-- What an answer does not touch.
abbrev pub Rests : (Conn → Conn) → Type 0
Rests h = (c : Conn) → (h c).world ≡ c.world

respond-Rests : (status : ℕ) (payload : Option Payload) → Rests (respond status payload)
unfolding respond
respond-Rests status payload c = refl

error-Rests :
    (r : Request) (status : ℕ) (code message : String) → Rests (respond_error r status code message)
unfolding respond_error
error-Rests r status code message = respond-Rests status _

if-Rests : (b : Bool) (h k : Conn → Conn) → Rests h → Rests k → Rests (λ c. if b then h c else k c)
if-Rests true h k a b = a
if-Rests false h k a b = b

write_domain_error-Rests : (r : Request) (e : Error) → Rests (write_domain_error r e)
unfolding write_domain_error
write_domain_error-Rests r e = if-Rests (is e not_found) _ _ (error-Rests r _ _ _) (
    if-Rests (is e already_exists) _ _ (error-Rests r _ _ _) (
      if-Rests (is e invalid_credentials) _ _ (error-Rests r _ _ _) (
        if-Rests (is e token_invalid) _ _ (error-Rests r _ _ _) (
          if-Rests (is e forbidden) _ _ (error-Rests r _ _ _) (
            if-Rests (is e validation) _ _ (error-Rests r _ _ _)
              (λ c. error-Rests r _ _ _ (log_error "unhandled error" e c)))))))

module _ (p : Deployment) (Q : Call → Type 0) where
  abbrev pub Does : (Conn → Conn) → Type 0
  Does h = (c : Conn) → Act p Q c.world.tables (h c).world.tables

  error-Does :
      (r : Request) (status : ℕ) (code message : String)
      → Does (respond_error r status code message)
  unfolding respond_error respond
  error-Does r status code message c = idles refl

  if_valid-Does :
      (r : Request) (o : Option Error) (next : Conn → Conn) → Does next → Does (if_valid r o next)
  if_valid-Does r none next does = does
  if_valid-Does r (some e) next does = error-Does r _ _ _

  with_body-Does :
      {A : Type 0} (r : Request) (res : Result A) (validate : A → Option Error)
      (next : A → Conn → Conn)
      → ((a : A) → Does (next a))
      → Does (with_body r res validate next)
  with_body-Does r (ok req) validate next does =
      if_valid-Does r (validate req) (next req) (does req)
  with_body-Does r (err e) validate next does = error-Does r _ _ _

  with_user-Does :
      (r : Request) (o : Option Int64) (next : Int64 → Conn → Conn)
      → ((u : Int64) → o ≡ some u → Does (next u))
      → Does (with_user r o next)
  with_user-Does r (some u) next does = does u refl
  with_user-Does r none next does = error-Does r _ _ _

  with_task_id-Does :
      (r : Request) (parsed : ℤ × Option NumError) (next : Int64 → Conn → Conn)
      → ((k : Int64) → Does (next k))
      → Does (with_task_id r parsed next)
  with_task_id-Does r (k, none) next does = does k
  with_task_id-Does r (k, some e) next does = error-Does r _ _ _

  if-Does : (b : Bool) (h k : Conn → Conn) → Does h → Does k → Does (λ c. if b then h c else k c)
  if-Does true h k a b = a
  if-Does false h k a b = b

  answer-Rests :
      {A : Type 0} (r : Request) (res : Result A) (next : A → Conn → Conn)
      → ((a : A) → Rests (next a))
      → Rests (answer r res next)
  answer-Rests r (ok x) next rests = rests x
  answer-Rests r (err e) next rests = write_domain_error-Rests r e

  -- The call that a service's method is.
  with_service-Does :
      {A : Type 0} (r : Request) (m : Io A) (next : A → Conn → Conn) (x : Call)
      → ((w : World) → (m w).1 ≡ perform p x w)
      → Q x
      → ((a : A) → Rests (next a))
      → Does (with_service r m next)
  with_service-Does r m next x same fits rests c = do
    let rest = answer-Rests r (m c.world).0 next rests (record c { world = (m c.world).1 })
    acts x c.world fits refl (ap (λ (w : World). w.tables) (rest ∙ same c.world))

module _ (json : Json) (p : Deployment) (r : Request) where
  pub auth-Does :
      Does p (λ x. caller x ≡ none) (AuthHandler.signup json p r)
      × Does p (λ x. caller x ≡ none) (AuthHandler.login json p r)
      × Does p (λ x. caller x ≡ none) (AuthHandler.refresh json p r)
      × Does p (λ x. caller x ≡ none) (AuthHandler.logout json p r)
  unfolding AuthHandler.signup AuthHandler.login AuthHandler.refresh AuthHandler.logout perform
  auth-Does = (
    with_body-Does p _ r (json.signup r.body) validate_signup _ λ req.
        with_service-Does p _ r (Server.signup p req.email req.password) _
          (signs_up req.email req.password) (λ w. refl) refl λ pair. respond-Rests 201 _,
    with_body-Does p _ r (json.login r.body) validate_login _ λ req.
        with_service-Does p _ r (Server.login p req.email req.password) _
          (logs_in req.email req.password) (λ w. refl) refl λ pair. respond-Rests 200 _,
    with_body-Does p _ r (json.refresh r.body) validate_refresh _ λ req.
        with_service-Does p _ r (Server.refresh p req.refresh_token) _ (refreshes req.refresh_token)
          (λ w. refl) refl λ pair. respond-Rests 200 _,
    with_body-Does p _ r (json.logout r.body) validate_logout _ λ req.
        with_service-Does p _ r (Server.logout p req.refresh_token) _ (logs_out req.refresh_token)
          (λ w. refl) refl λ done. respond-Rests 204 _,
  )

  pub tasks-Does :
      Does p (λ x. caller x ≡ r.user_id) (TaskHandler.create json p r)
      × Does p (λ x. caller x ≡ r.user_id) (TaskHandler.list json p r)
      × Does p (λ x. caller x ≡ r.user_id) (TaskHandler.get json p r)
      × Does p (λ x. caller x ≡ r.user_id) (TaskHandler.update json p r)
      × Does p (λ x. caller x ≡ r.user_id) (TaskHandler.delete json p r)
  unfolding TaskHandler.create TaskHandler.list TaskHandler.get TaskHandler.update
      TaskHandler.delete perform
  tasks-Does = (
    with_user-Does p _ r r.user_id _ λ u e.
        with_body-Does p _ r (json.task r.body) validate_task _ λ req.
          with_service-Does p _ r
            (Tasks.create (task_service p) u req.title req.description req.due_date) _
            (creates u req.title req.description req.due_date) (λ w. refl) (sym e)
            λ k. respond-Rests 201 _,
    with_user-Does p _ r r.user_id _ λ u e.
        if-Does p _ (not (str_eq (r.query "status") "") && not (valid (r.query "status"))) _ _
          (error-Does p _ r 400 "VALIDATION_ERROR" "invalid status filter")
          (with_service-Does p _ r
            (Tasks.list (task_service p) u (r.query "status") (parse_int (r.query "limit")).0
              (parse_int (r.query "offset")).0)
            _
            (lists u (r.query "status") (parse_int (r.query "limit")).0
              (parse_int (r.query "offset")).0)
            (λ w. refl) (sym e) λ page. respond-Rests 200 _),
    with_user-Does p _ r r.user_id _ λ u e. with_task_id-Does p _ r (parse_task_id r) _ λ id.
        with_service-Does p _ r (Tasks.get (task_service p) u id) _ (gets u id) (λ w. refl) (sym e)
          λ k. respond-Rests 200 _,
    with_user-Does p _ r r.user_id _ λ u e. with_task_id-Does p _ r (parse_task_id r) _ λ id.
        with_body-Does p _ r (json.task r.body) validate_task _ λ req.
          with_service-Does p _ r
            (Tasks.update (task_service p) u id req.title req.description
              (status_or_pending req.status) req.due_date)
            _ (updates u id req.title req.description (status_or_pending req.status) req.due_date)
            (λ w. refl) (sym e) λ k. respond-Rests 200 _,
    with_user-Does p _ r r.user_id _ λ u e. with_task_id-Does p _ r (parse_task_id r) _ λ id.
        with_service-Does p _ r (Tasks.delete (task_service p) u id) _ (deletes u id) (λ w. refl)
          (sym e) λ done. respond-Rests 204 _,
  )
