-- ===== src/Http/AuthHandler.antt =====
-- internal/httpapi/handler/auth_handler.go
use taskflow_api.Base.{none, some}
use taskflow_api.Http.Dto.{
  validate_signup, validate_login, validate_refresh, validate_logout, user_response,
}
use taskflow_api.Http.Answers.{Handler, auth_body, token_body, respond}
use taskflow_api.Http.Requests.{Json, with_body, with_service}
use taskflow_api.Server
use taskflow_api.Server.{Deployment}

module _ (json : Json) (d : Deployment) where
  unfoldable pub signup : Handler
  signup r = with_body r (json.signup r.body) validate_signup λ req.
      with_service r (Server.signup d req.email req.password) λ (user, access, refresh).
        respond 201 (
          some (
            auth_body
              (record { token = access; refresh_token = refresh; user = user_response user })))

  unfoldable pub login : Handler
  login r = with_body r (json.login r.body) validate_login λ req.
      with_service r (Server.login d req.email req.password) λ (user, access, refresh).
        respond 200 (
          some (
            auth_body
              (record { token = access; refresh_token = refresh; user = user_response user })))

  unfoldable pub refresh : Handler
  refresh r = with_body r (json.refresh r.body) validate_refresh λ req.
      with_service r (Server.refresh d req.refresh_token) λ (access, refreshed).
        respond 200 (some (token_body (record { token = access; refresh_token = refreshed })))

  unfoldable pub logout : Handler
  logout r =
      with_body r (json.logout r.body) validate_logout
        λ req. with_service r (Server.logout d req.refresh_token) λ done. respond 204 none
