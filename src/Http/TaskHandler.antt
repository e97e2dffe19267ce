-- ===== src/Http/TaskHandler.antt =====
-- internal/httpapi/handler/task_handler.go
use taskflow_api.Base.{String, Option, none, some, not, ◌&&◌, str_eq, if◌then◌else◌, ℤ}
use taskflow_api.Domain.{Int64, valid, pending}
use taskflow_api.Strconv.{NumError, parse_int}
use taskflow_api.Http.Dto.{validate_task, task_response, task_list_response}
use taskflow_api.Http.Answers.{
  Request, Conn, Handler, task_body, task_list_body, respond, respond_error,
}
use taskflow_api.Http.Requests.{Json, with_body, with_service}
use taskflow_api.Service.Tasks
use taskflow_api.Server.{Deployment, task_service}

-- `userID, ok := currentUserID(w, r); if !ok { return }`
abbrev pub with_user : Request → Option Int64 → (Int64 → Conn → Conn) → Conn → Conn
with_user r (some user_id) next c = next user_id c
with_user r none next c = respond_error r 500 "INTERNAL_ERROR" "internal server error" c

-- `taskID, err := parseTaskID(r); if err != nil { … return }`
abbrev pub with_task_id : Request → ℤ × Option NumError → (Int64 → Conn → Conn) → Conn → Conn
with_task_id r (task_id, none) next c = next task_id c
with_task_id r (_, some e) next c = respond_error r 400 "BAD_REQUEST" "invalid task id" c

unfoldable pub parse_task_id : Request → ℤ × Option NumError
parse_task_id r = parse_int (r.path_value "id")

-- The status of an update defaults to pending.
unfoldable pub status_or_pending : String → String
status_or_pending status = if str_eq status "" then pending else status

module _ (json : Json) (d : Deployment) where
  unfoldable pub create : Handler
  create r = with_user r r.user_id λ user_id. with_body r (json.task r.body) validate_task λ req.
      with_service r (Tasks.create (task_service d) user_id req.title req.description req.due_date)
        λ task. respond 201 (some (task_body (task_response task)))

  -- The errors of the two `Atoi` are dropped, and the values beside them kept.
  unfoldable pub list : Handler
  list r = with_user r r.user_id λ user_id c.
      let status = r.query "status" in
      let limit = (parse_int (r.query "limit")).0 in
      let offset = (parse_int (r.query "offset")).0 in
      if not (str_eq status "") && not (valid status)
      then respond_error r 400 "VALIDATION_ERROR" "invalid status filter" c
      else with_service r (Tasks.list (task_service d) user_id status limit offset)
          (λ page. respond 200 (
            some
              (task_list_body (task_list_response page.tasks page.total page.limit page.offset))))
          c

  unfoldable pub get : Handler
  get r = with_user r r.user_id λ user_id. with_task_id r (parse_task_id r) λ task_id.
      with_service r (Tasks.get (task_service d) user_id task_id)
        λ task. respond 200 (some (task_body (task_response task)))

  unfoldable pub update : Handler
  update r = with_user r r.user_id λ user_id. with_task_id r (parse_task_id r) λ task_id.
      with_body r (json.task r.body) validate_task λ req.
        with_service r
          (Tasks.update (task_service d) user_id task_id req.title req.description
            (status_or_pending req.status) req.due_date)
          λ task. respond 200 (some (task_body (task_response task)))

  unfoldable pub delete : Handler
  delete r = with_user r r.user_id λ user_id. with_task_id r (parse_task_id r) λ task_id.
      with_service r (Tasks.delete (task_service d) user_id task_id) λ done. respond 204 none
