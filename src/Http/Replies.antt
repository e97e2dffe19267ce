-- ===== src/Http/Replies.antt =====
-- Every handler of internal/httpapi/handler answers, and answers once.
pub mod Steps
pub mod Calls
use taskflow_api.Base.{◌≡◌, none, [], str_eq, ◌&&◌, not}
use taskflow_api.Domain.{valid}
use taskflow_api.Domain.Errors.{is}
use taskflow_api.Strconv.{parse_int}
use taskflow_api.Service.Tasks
use taskflow_api.Server
use taskflow_api.Server.{Deployment, task_service}
use taskflow_api.Http.Dto.{
  validate_signup, validate_login, validate_refresh, validate_logout, validate_task,
}
use taskflow_api.Http.Answers.{Request, Conn}
use taskflow_api.Http.Requests.{Json}
use taskflow_api.Http.AuthHandler
use taskflow_api.Http.TaskHandler
use taskflow_api.Http.TaskHandler.{parse_task_id, status_or_pending}
use taskflow_api.Http.Replies.Steps.{
  Answered, Reply, Answers, Reply-Answered, respond-some, respond-none, error-Answers, if-Answers,
  with_body-Answers, with_service-Answers, with_user-Answers, with_task_id-Answers,
}

module _ (json : Json) (d : Deployment) (r : Request) where
  pub auth-Answers :
      Answers (AuthHandler.signup json d r)
      × Answers (AuthHandler.login json d r)
      × Answers (AuthHandler.refresh json d r)
      × Answers (AuthHandler.logout json d r)
  unfolding AuthHandler.signup AuthHandler.login AuthHandler.refresh AuthHandler.logout
  auth-Answers = (
    with_body-Answers r (json.signup r.body) validate_signup _ λ req.
        with_service-Answers r (Server.signup d req.email req.password) _
          λ pair. respond-some 201 _,
    with_body-Answers r (json.login r.body) validate_login _ λ req.
        with_service-Answers r (Server.login d req.email req.password) _ λ pair. respond-some 200 _,
    with_body-Answers r (json.refresh r.body) validate_refresh _ λ req.
        with_service-Answers r (Server.refresh d req.refresh_token) _ λ pair. respond-some 200 _,
    with_body-Answers r (json.logout r.body) validate_logout _
        λ req. with_service-Answers r (Server.logout d req.refresh_token) _ λ done. respond-none,
  )

  pub tasks-Answers :
      Answers (TaskHandler.create json d r)
      × Answers (TaskHandler.list json d r)
      × Answers (TaskHandler.get json d r)
      × Answers (TaskHandler.update json d r)
      × Answers (TaskHandler.delete json d r)
  unfolding TaskHandler.create TaskHandler.list TaskHandler.get TaskHandler.update
      TaskHandler.delete
  tasks-Answers = (
    with_user-Answers r r.user_id _ λ user_id.
        with_body-Answers r (json.task r.body) validate_task _ λ req.
          with_service-Answers r
            (Tasks.create (task_service d) user_id req.title req.description req.due_date) _
            λ k. respond-some 201 _,
    with_user-Answers r r.user_id _ λ user_id.
        if-Answers (not (str_eq (r.query "status") "") && not (valid (r.query "status"))) _ _
          (error-Answers r 400 "VALIDATION_ERROR" "invalid status filter")
          (with_service-Answers r
            (Tasks.list (task_service d) user_id (r.query "status") (parse_int (r.query "limit")).0
              (parse_int (r.query "offset")).0)
            _ λ page. respond-some 200 _),
    with_user-Answers r r.user_id _ λ user_id. with_task_id-Answers r (parse_task_id r) _ λ id.
        with_service-Answers r (Tasks.get (task_service d) user_id id) _ λ k. respond-some 200 _,
    with_user-Answers r r.user_id _ λ user_id. with_task_id-Answers r (parse_task_id r) _ λ id.
        with_body-Answers r (json.task r.body) validate_task _ λ req.
          with_service-Answers r
            (Tasks.update (task_service d) user_id id req.title req.description
              (status_or_pending req.status) req.due_date)
            _ λ k. respond-some 200 _,
    with_user-Answers r r.user_id _ λ user_id. with_task_id-Answers r (parse_task_id r) _ λ id.
        with_service-Answers r (Tasks.delete (task_service d) user_id id) _ λ done. respond-none,
  )

-- Every handler answers once, whatever the request holds and whatever the service does: if nothing
-- was written before, then a status is sent, and the body holds one value, or none under 204.
pub handlers_answer :
    (json : Json) (d : Deployment) (r : Request) (c : Conn)
    → c.writer.sent ≡ none
    → c.writer.body ≡ []
    → Answered (AuthHandler.signup json d r c)
      × Answered (AuthHandler.login json d r c)
      × Answered (AuthHandler.refresh json d r c)
      × Answered (AuthHandler.logout json d r c)
      × Answered (TaskHandler.create json d r c)
      × Answered (TaskHandler.list json d r c)
      × Answered (TaskHandler.get json d r c)
      × Answered (TaskHandler.update json d r c)
      × Answered (TaskHandler.delete json d r c)
handlers_answer json d r c unsent empty =
    let (signup, login, refresh, logout) = auth-Answers json d r in
    let (create, list, get, update, delete) = tasks-Answers json d r in
    let told : (h : Conn → Conn) → Answers h → Answered (h c) =
      λ h a. Reply-Answered c (h c) (a c) unsent empty in
    (
      told _ signup,
      told _ login,
      told _ refresh,
      told _ logout,
      told _ create,
      told _ list,
      told _ get,
      told _ update,
      told _ delete,
    )
