-- ===== src/Http/Api.antt =====
-- Whole handlers of internal/httpapi/handler over the services and the repositories: what a client
-- is told.
use taskflow_api.Text.{contains_char, byte_length}
use taskflow_api.Base.{
  ◌<◌, ltb, String, suc, ◌≡◌, ◌≢◌, refl, ◌⊎◌, inl, inr, none, some, Bool-cases, Option-cases, true,
  false, str_eq, arith, ◌&&◌, not, pos, ◌≤ℤ◌, All,
}
use taskflow_api.Domain.{Task, RefreshToken, Int64, valid, expired, revoked}
use taskflow_api.Domain.Errors.{is, error_text, ok, Result-cases}
use taskflow_api.Store.{works}
use taskflow_api.Store.Outcomes.{met}
use taskflow_api.Store.Quiet.{IsQuiet}
use taskflow_api.Strconv.{parse_int}
use taskflow_api.Server.{Deployment}
use taskflow_api.Server.Ownership.{task_of, after_lookup, foreign_task_forbidden}
use taskflow_api.Server.Accounts.{IsBadLogin, login_rejects_alike}
use taskflow_api.Server.Reuse.{presented, IsBadToken, refresh_rejects_alike}
use taskflow_api.Server.Race.{met_by_revoke, refresh_race_loser}
use taskflow_api.Server.Pages.{IsOrdering, list-IsPage, effective_bounds}
use taskflow_api.Http.Dto.{
  SignupRequest, LoginRequest, RefreshRequest, TaskRequest, TaskListResponse, validate_signup,
  validate_login, validate_refresh, validate_task, task_list_response,
}
use taskflow_api.Http.Answers.{
  Request, Conn, task_list_body, respond, respond_error, write_domain_error,
}
use taskflow_api.Http.Requests.{Json}
use taskflow_api.Http.AuthHandler
use taskflow_api.Http.TaskHandler
use taskflow_api.Http.TaskHandler.{parse_task_id, status_or_pending}

-- The body is no task that passes Validate.
abbrev pub IsMalformed : Json → Request → Type 0
IsMalformed json r = (req : TaskRequest) → json.task r.body ≡ ok req → validate_task req ≢ none

-- A task of another user cannot be read, changed or removed through the API. If the request is
-- authenticated, and its path names a task that the lookup finds and that is another user's, then
-- GET and DELETE are answered by 403, whatever the body, and no table is changed. PUT is answered
-- by the same 403, unless the body is no valid task: then it may be answered by 400 instead, before
-- any statement is sent.
pub foreign_task_is_403 :
    (json : Json) (d : Deployment) (r : Request) (c : Conn) (user_id task_id : Int64) (k : Task)
    → r.user_id ≡ some user_id
    → parse_task_id r ≡ (task_id, none)
    → d.env.fault c.world.step ≡ works
    → task_of task_id (met d.env c.world).tasks ≡ some k
    → k.user_id ≢ user_id
    → let refused =
        respond_error r 403 "FORBIDDEN" "you do not have access to this resource"
          (record c { world = after_lookup d c.world }) in
      (TaskHandler.get json d r c ≡ refused)
      × (TaskHandler.delete json d r c ≡ refused)
      × ((TaskHandler.update json d r c ≡ refused)
          ⊎ (IsMalformed json r
              × (code message : String) × (TaskHandler.update json d r c
                  ≡ respond_error r 400 code message c)))
unfolding TaskHandler.get TaskHandler.update TaskHandler.delete write_domain_error is error_text
    parse_task_id respond_error
foreign_task_is_403 json d r c user_id task_id k user path h found foreign =
    let (got, _, deleted) =
      foreign_task_forbidden d user_id task_id "" "" "" none c.world k h found foreign in
    (
      rw (user, path, got),
      rw (user, path, deleted),
      elim (Result-cases (json.task r.body)) [
        | inr (e, decoded) ↦ inr (
          (λ req fine valid. cc (decoded, fine)),
          "BAD_REQUEST",
          "invalid request body",
          rw (user, path, decoded) refl,
        )
        | inl (req, decoded) ↦ elim (Option-cases (validate_task req)) [
          | inl fine ↦
              let (_, updated, _) =
                foreign_task_forbidden d user_id task_id req.title req.description
                  (status_or_pending req.status) req.due_date c.world k h found foreign in
              inl (rw (user, path, decoded, fine, updated))
          | inr (e, bad) ↦ inr (
            (λ other same valid. cc (decoded, same, bad, valid)),
            "VALIDATION_ERROR",
            error_text e,
            rw (user, path, decoded, bad) refl,
          )
        ]
      ],
    )

-- A log-in with an unknown e-mail and one with a wrong password are told the same. If the body is
-- valid and the lookup works, both are answered by 401 with the same code and text, whoever asks
-- for which e-mail, and no table is changed.
pub bad_login_is_401 :
    (json : Json) (d : Deployment) (r : Request) (c : Conn) (req : LoginRequest)
    → json.login r.body ≡ ok req
    → validate_login req ≡ none
    → d.env.fault c.world.step ≡ works
    → IsBadLogin d req.email req.password (met d.env c.world)
    → AuthHandler.login json d r c
      ≡ respond_error r 401 "UNAUTHORIZED" "invalid email or password"
          (record c { world = record { tables = met d.env c.world; step = suc c.world.step } })
unfolding AuthHandler.login write_domain_error is error_text
bad_login_is_401 json d r c req decoded fine h bad =
    rw (decoded, fine, login_rejects_alike d req.email req.password c.world h bad)

-- A refresh token that is unknown, revoked or expired is told the same: if the body is valid and
-- the statements work, the response is 401 with one code and one text.
pub bad_token_is_401 :
    (json : Json) (d : Deployment) (r : Request) (c : Conn) (req : RefreshRequest)
    → json.refresh r.body ≡ ok req
    → validate_refresh req ≡ none
    → d.env.fault c.world.step ≡ works
    → d.env.fault (suc c.world.step) ≡ works
    → IsBadToken d req.refresh_token c.world
    → (AuthHandler.refresh json d r c).writer
      ≡ (respond_error r 401 "UNAUTHORIZED" "invalid or expired refresh token" c).writer
unfolding AuthHandler.refresh write_domain_error is error_text respond_error respond
bad_token_is_401 json d r c req decoded fine h k bad =
    rw (decoded, fine, refresh_rejects_alike d req.refresh_token c.world h k bad)

-- The later of two refreshes with one live token is told another thing than a client with a bad
-- token: if the body is valid, the statements work, the lookup finds the token live, and every row
-- with its id is revoked when the UPDATE runs, then the response is 404 with the text of Revoke.
pub race_loser_is_404 :
    (json : Json) (d : Deployment) (r : Request) (c : Conn) (req : RefreshRequest)
    (t : RefreshToken)
    → json.refresh r.body ≡ ok req
    → validate_refresh req ≡ none
    → d.env.fault c.world.step ≡ works
    → d.env.fault (suc (suc c.world.step)) ≡ works
    → d.env.affected_fault (suc (suc (suc c.world.step))) ≡ none
    → presented d req.refresh_token c.world ≡ some t
    → revoked t ≡ false
    → expired t (d.env.app_now (suc c.world.step)) ≡ false
    → All (λ x. x.id ≡ t.id → revoked x ≡ true) (met_by_revoke d c.world).refresh_tokens
    → (AuthHandler.refresh json d r c).writer
      ≡ (respond_error r 404 "NOT_FOUND" "revoke used refresh token: resource not found" c).writer
unfolding AuthHandler.refresh write_domain_error is error_text respond_error respond
race_loser_is_404 json d r c req t decoded fine h k counted found live young dead =
    let (lost, _) =
      refresh_race_loser d req.refresh_token c.world t h k counted found live young dead in
    rw (decoded, fine, lost)

-- A list is answered by a page whatever its query says of limit and offset, numbers or not: with
-- the database to itself, an authenticated user and a status that is "" or valid, the response is
-- 200 with a page whose limit is between 1 and 100 and whose offset is at least 0.
pub list_answers_page :
    (json : Json) (d : Deployment) (r : Request) (c : Conn) (user_id : Int64)
    → r.user_id ≡ some user_id
    → (not (str_eq (r.query "status") "") && not (valid (r.query "status"))) ≡ false
    → IsQuiet d.env
    → IsOrdering d.env.order
    → (page : TaskListResponse) × ((TaskHandler.list json d r c).writer
        ≡ (respond 200 (some (task_list_body page)) c).writer)
      × (pos 1 ≤ℤ page.limit)
      × (page.limit ≤ℤ pos 100)
      × (pos 0 ≤ℤ page.offset)
unfolding TaskHandler.list respond
list_answers_page json d r c user_id user fine q o =
    let limit = (parse_int (r.query "limit")).0 in
    let offset = (parse_int (r.query "offset")).0 in
    let (page, listed, p) = list-IsPage d user_id (r.query "status") limit offset c.world q o in
    let (low, high, start, _, _) = effective_bounds limit offset in
    let (lim, off) = p.bounds in
    rw (user, fine, listed)
      (
        task_list_response page.tasks page.total page.limit page.offset,
        refl,
        rw lim low,
        rw lim high,
        rw off start,
      )

-- A sign-up with an e-mail that has no @, or with a password of fewer than 8 bytes, is refused
-- before anything is done: the response is 400, and no statement is sent and no hash computed.
pub invalid_signup_is_400 :
    (json : Json) (d : Deployment) (r : Request) (c : Conn) (req : SignupRequest)
    → json.signup r.body ≡ ok req
    → (contains_char b'@' req.email ≡ false) ⊎ (byte_length req.password < 8)
    → (message : String) × (AuthHandler.signup json d r c
        ≡ respond_error r 400 "VALIDATION_ERROR" message c)
unfolding AuthHandler.signup validate_signup
invalid_signup_is_400 json d r c req decoded (inl no_at) = rw (decoded, no_at) (_, refl)
invalid_signup_is_400 json d r c req decoded (inr short) =
    let too_short : ltb (byte_length req.password) 8 ≡ true = ground arith in
    elim (Bool-cases (contains_char b'@' req.email)) [
      | inl e ↦ rw (decoded, e, too_short) (_, refl)
      | inr e ↦ rw (decoded, e) (_, refl)
    ]
