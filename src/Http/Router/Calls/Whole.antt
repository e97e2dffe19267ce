-- ===== src/Http/Router/Calls/Whole.antt =====
-- What the middleware, the muxes and the handlers of internal/httpapi/router.go do together to the
-- tables.
use taskflow_api.Base.{String, ◌≡◌, refl, inl, Bool, Option, some, none, true, false, ℤ}
use taskflow_api.Domain.Errors.{Error}
use taskflow_api.Http.Answers.{Request, Conn, Handler, respond}
use taskflow_api.Http.Hardening.{max_body_bytes}
use taskflow_api.Http.Health.{health, ready}
use taskflow_api.Http.Gates.{chain_order}
use taskflow_api.Http.Observation.{request_id}
use taskflow_api.Http.Replies.Calls.{idles, auth-Does, tasks-Does}
use taskflow_api.Http.Router.{
  Libraries, Deps, api, api_routes, protected, protected_routes, api_handler, api_middleware, root,
  root_routes, handler_chain, root_middleware,
}
use taskflow_api.Http.Router.Refusals.{LimitsOnly}
use taskflow_api.Http.Observation.{logging, log_access, metrics, count_request}
use taskflow_api.Http.Router.Calls.{
  IsFor, weakened, Makes, IsUsers, serve_mux-Makes, auth-Makes, timeout-Makes, limit-Makes,
  cors-Makes, recorded-Makes, recover-Makes, security_headers-Makes,
}
use taskflow_api.Http.Router.Refusals.Inner.{new_rate_limiter-tables}
use taskflow_api.Http.Router.Refusals.Outer.{id_or_new-tables}

-- The handlers of libraries write no table.
pub record LeavesTables (lib : Libraries) : Type 0 where
  pub redirect : (r : Request) (c : Conn) → (lib.redirect r c).world.tables ≡ c.world.tables
  pub metrics_page : (r : Request) (c : Conn) → (lib.metrics_page r c).world.tables ≡ c.world.tables

module _ (lib : Libraries) (d : Deps) (leaves : LeavesTables lib) where
  protected-Makes : Makes d.process (IsUsers d.process) (protected lib d)
  unfolding protected
  protected-Makes = do
    let h = λ (r : Request). tasks-Does d.json d.process r
    serve_mux-Makes d.process (IsUsers d.process) lib.redirect (protected_routes lib d)
        (λ r f x e. e) leaves.redirect
        ((λ r. (h r).0), ((λ r. (h r).1), ((λ r. (h r).2), ((λ r. (h r).3), ((λ r. (h r).4), tt)))))

  api-Makes : Makes d.process (IsFor d.process) (api lib d)
  unfolding api
  api-Makes = do
    let h = λ (r : Request). auth-Does d.json d.process r
    let tasks = auth-Makes d.process (protected lib d) protected-Makes
    serve_mux-Makes d.process (IsFor d.process) lib.redirect (api_routes lib d) (λ r f x e. e)
        leaves.redirect
        (
          (λ r c. weakened _ (IsFor d.process r) _ _ _ (λ x e. inl e) refl ((h r).0 c)),
          (
            (λ r c. weakened _ (IsFor d.process r) _ _ _ (λ x e. inl e) refl ((h r).1 c)),
            (
              (λ r c. weakened _ (IsFor d.process r) _ _ _ (λ x e. inl e) refl ((h r).2 c)),
              (
                (λ r c. weakened _ (IsFor d.process r) _ _ _ (λ x e. inl e) refl ((h r).3 c)),
                (tasks, (tasks, tt)),
              ),
            ),
          ),
        )

  ready-rests :
      (ping : Option Error) (version : String) (draining : Option Bool) (r : Request) (c : Conn)
      → (ready ping version draining r c).world.tables ≡ c.world.tables
  unfolding ready respond
  ready-rests ping version (some true) r c = refl
  ready-rests none version (some false) r c = refl
  ready-rests none version none r c = refl
  ready-rests (some e) version (some false) r c = refl
  ready-rests (some e) version none r c = refl

  max_body_bytes-Makes :
      (reader : ℤ → String → String) (max : ℤ) (next : Handler)
      → Makes d.process (IsFor d.process) next
      → Makes d.process (IsFor d.process) (max_body_bytes reader max next)
  unfolding max_body_bytes
  max_body_bytes-Makes reader max next makes r c = makes (record r { body = reader max r.body }) c

  request_id-Makes :
      (next : Handler)
      → Makes d.process (IsFor d.process) next
      → Makes d.process (IsFor d.process) (request_id d.process.env d.tags next)
  unfolding request_id
  request_id-Makes next makes r c =
      weakened _ _ _ _ _ (λ x fits. fits)
        (id_or_new-tables d c.world.tables (r.header "X-Request-ID") c.world) (makes _ _)

  module _ (only : LimitsOnly d) where
    api_handler-Makes : Makes d.process (IsFor d.process) (api_handler lib d)
    unfolding api_handler
    api_handler-Makes = do
      let Q = IsFor d.process
      rw (chain_order (api_middleware lib d) (api lib d)) (
          cors-Makes d.process Q _ _ (
            max_body_bytes-Makes _ _ _ (
              limit-Makes d.process Q _ _ _
                (new_rate_limiter-tables d.redis_client d.redis d.in_memory only.redis
                  only.in_memory)
                (timeout-Makes d.process Q _ _ api-Makes))))

    root-Makes : Makes d.process (IsFor d.process) (root lib d)
    unfolding root health respond
    root-Makes =
        serve_mux-Makes d.process (IsFor d.process) lib.redirect (root_routes lib d) (λ r f x e. e)
          leaves.redirect
          (
            (λ r c. idles refl),
            (
              (λ r c. idles (ready-rests _ _ _ r c)),
              ((λ r c. idles (leaves.metrics_page r c)), (api_handler-Makes, tt)),
            ),
          )

    -- A request through all the middleware.
    pub handler_chain-Makes : Makes d.process (IsFor d.process) (handler_chain lib d)
    unfolding handler_chain logging metrics
    handler_chain-Makes = do
      let p = d.process
      let Q = IsFor d.process
      rw (chain_order (root_middleware lib d) (root lib d)) (
          request_id-Makes _ (
            recorded-Makes p Q log_access _ (λ r rec c. refl)
              (recover-Makes p Q _ (
                recorded-Makes p Q count_request _ (λ r rec c. refl)
                  (security_headers-Makes p Q _ root-Makes)))))
