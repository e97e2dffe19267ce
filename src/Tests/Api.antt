-- ===== src/Tests/Api.antt =====
-- Whole handlers at concrete inputs.
use taskflow_api.Base.{
  ◌⊎◌, String, arith, ◌≡◌, refl, none, some, Bool, true, pos, ◌≤ℤ◌, ◌≢◌, eq_ℤ, ◌+ℤ◌,
}
use taskflow_api.Domain.{valid, revoked, expired}
use taskflow_api.Text.{contains_char, byte_length, utf8_size}
use taskflow_api.Strconv.{parse_int, parse_uint, parse_digits, is_digit, signed}
use taskflow_api.Sql.{find_row}
use taskflow_api.Server.Ownership.{after_lookup}
use taskflow_api.Http.Dto.{validate_login, validate_refresh, validate_task, TaskListResponse}
use taskflow_api.Http.Answers.{respond, respond_error, task_list_body}
use taskflow_api.Http.AuthHandler
use taskflow_api.Http.TaskHandler
use taskflow_api.Http.TaskHandler.{parse_task_id}
use taskflow_api.Http.Api.{IsMalformed, foreign_task_is_403, race_loser_is_404, list_answers_page}
use taskflow_api.Tests.Ordering.{by_creation-IsOrdering}
use taskflow_api.Service.RefreshTokens.{hash_refresh_token, hex}
use taskflow_api.Tests.Requests.{json, request_of, conn_of}
use taskflow_api.Tests.Sample.{env-IsQuiet, process, raced, stocked, task, token}

-- The definitions that the lookups and the checks of a request run through.
api_runs : Bool
unfolding find_row eq_ℤ ◌+ℤ◌ hash_refresh_token hex parse_task_id parse_int parse_uint parse_digits
    is_digit signed validate_task validate_login validate_refresh contains_char byte_length
    utf8_size valid revoked expired
api_runs = true

others_task : pos 1 ≢ pos 2
others_task e = ground arith

foreign_task_is_403_example :
    let r = request_of (some (pos 2)) in
    let c = conn_of stocked in
    let refused =
      respond_error r 403 "FORBIDDEN" "you do not have access to this resource"
        (record c { world = after_lookup process stocked }) in
    (TaskHandler.get json process r c ≡ refused)
    × (TaskHandler.delete json process r c ≡ refused)
    × ((TaskHandler.update json process r c ≡ refused)
        ⊎ (IsMalformed json r
            × (code message : String) × (TaskHandler.update json process r c
                ≡ respond_error r 400 code message c)))
unfolding api_runs
foreign_task_is_403_example =
    foreign_task_is_403 json process (request_of (some (pos 2))) (conn_of stocked) (pos 2) (pos 1)
      task refl refl refl refl others_task

race_loser_is_404_example :
    (AuthHandler.refresh json raced (request_of none) (conn_of stocked)).writer
    ≡ (respond_error
        (request_of none)
        404
        "NOT_FOUND"
        "revoke used refresh token: resource not found"
        (conn_of stocked)).writer
unfolding api_runs
race_loser_is_404_example =
    race_loser_is_404 json raced (request_of none) (conn_of stocked)
      (record { refresh_token = "tok" }) token refl refl refl refl refl refl refl refl
      ((λ same. refl), tt)

list_answers_page_example :
    let r = request_of (some (pos 1)) in
    let c = conn_of stocked in
    (page : TaskListResponse) × ((TaskHandler.list json process r c).writer
      ≡ (respond 200 (some (task_list_body page)) c).writer)
    × (pos 1 ≤ℤ page.limit)
    × (page.limit ≤ℤ pos 100)
    × (pos 0 ≤ℤ page.offset)
unfolding api_runs
list_answers_page_example =
    list_answers_page json process (request_of (some (pos 1))) (conn_of stocked) (pos 1) refl refl
      env-IsQuiet by_creation-IsOrdering
