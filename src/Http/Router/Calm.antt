-- ===== src/Http/Router/Calm.antt =====
-- The muxes and the handlers of internal/httpapi/router.go, and what only Logging and Metrics write.
use taskflow_api.Base.{
  ℤ, String, ◌≡◌, refl, ◌∙◌, inl, inr, Bool-cases, Option, none, some, List, Bool, true, false,
  str_eq, if◌then◌else◌,
}
use taskflow_api.Domain.{Int64}
use taskflow_api.Domain.Errors.{Error, Result, ok, err}
use taskflow_api.Server.{Deployment}
use taskflow_api.Http.Answers.{
  log_error, Writer, set_header, Request, Conn, Handler, respond, respond_error,
}
use taskflow_api.Http.Health.{health, ready}
use taskflow_api.Http.Middleware.{
  bearer, check_bearer, admit, auth, allow_origin, cors, origin_allowed,
}
use taskflow_api.Http.Hardening.{max_body_bytes}
use taskflow_api.Http.RateLimit.{Allow, gated, limit}
use taskflow_api.Http.Gates.{chain_order}
use taskflow_api.Http.Replies.{auth-Answers, tasks-Answers}
use taskflow_api.Http.Replies.Steps.{Answers}
use taskflow_api.Http.Observation.Calm.{
  Calm, IsCalm, IsSilent, IsUnsent, respond-Calm, Reply-silent, Sends-Calm, write_header-Sends,
  after-Calm, reheaded, timeout-IsCalm,
}
use taskflow_api.Http.Router.{
  Libraries, Deps, protected, protected_routes, api, api_routes, api_handler, api_middleware, root,
  root_routes,
}
use taskflow_api.Http.Mux.Calm.{serve_mux-IsSilent, serve_mux-IsCalm}

admit-silent :
    (next : Handler) (r : Request) (res : Result Int64) (c : Conn)
    → IsSilent next
    → ((admit next r res c).access ≡ c.access)
      × ((admit next r res c).requests_total ≡ c.requests_total)
unfolding respond_error respond
admit-silent next r (ok user_id) c silent = silent (record r { user_id = some user_id }) c
admit-silent next r (err e) c silent = (refl, refl)

check_bearer-silent :
    (d : Deployment) (next : Handler) (r : Request) (o : Option String) (c : Conn)
    → IsSilent next
    → ((check_bearer d next r o c).access ≡ c.access)
      × ((check_bearer d next r o c).requests_total ≡ c.requests_total)
unfolding respond_error respond
check_bearer-silent d next r none c silent = (refl, refl)
check_bearer-silent d next r (some token) c silent = admit-silent next r _ _ silent

auth-IsSilent : (d : Deployment) (next : Handler) → IsSilent next → IsSilent (auth d next)
unfolding auth
auth-IsSilent d next silent r c =
    check_bearer-silent d next r (bearer (r.header "Authorization")) c silent

gated-Calm :
    (next : Handler) (r : Request) (res : Result Bool) (c : Conn)
    → IsCalm next
    → IsUnsent c
    → Calm c (gated next r res c)
unfolding respond_error
gated-Calm next r (ok true) c calm u = calm r c u
gated-Calm next r (ok false) c calm u = respond-Calm 429 _ c u
gated-Calm next r (err e) c calm u =
    after-Calm c (log_error "rate limiter backend error, allowing request" e c) _ refl refl refl (
      calm r (log_error "rate limiter backend error, allowing request" e c)
        (record { unsent = u.unsent; truthful = u.truthful; running = u.running }))

limit-IsCalm :
    (allow : Allow) (ip : Request → String) (next : Handler)
    → IsCalm next
    → IsCalm (limit allow ip next)
unfolding limit
limit-IsCalm allow ip next calm r c u = do
  let b = record c { world = (allow (ip r) c.world).1 }
  after-Calm c b _ refl refl refl (
      gated-Calm next r (allow (ip r) c.world).0 b calm
        (record { unsent = u.unsent; truthful = u.truthful; running = u.running }))

max_body_bytes-IsCalm :
    (reader : ℤ → String → String) (max : ℤ) (next : Handler)
    → IsCalm next
    → IsCalm (max_body_bytes reader max next)
unfolding max_body_bytes
max_body_bytes-IsCalm reader max next calm r = calm (record r { body = reader max r.body })

-- The writer that CORS hands on has other headers only.
unfoldable pub cors_writer : List String → String → Writer → Writer
cors_writer allowed origin w = if origin_allowed allowed origin then allow_origin origin w else w

pub cors_writer_lem :
    (allowed : List String) (origin : String) (w : Writer)
    → ((cors_writer allowed origin w).sent ≡ w.sent)
      × ((cors_writer allowed origin w).recorders ≡ w.recorders)
unfolding cors_writer allow_origin set_header
cors_writer_lem allowed origin w = elim (Bool-cases (origin_allowed allowed origin)) [
  | inl allowing ↦ rw allowing (refl, refl)
  | inr refusing ↦ rw refusing (refl, refl)
]

headed-IsUnsent :
    (c : Conn) (w : Writer)
    → w.sent ≡ c.writer.sent
    → w.recorders ≡ c.writer.recorders
    → IsUnsent c
    → IsUnsent (record c { writer = w })
headed-IsUnsent c w sent recorders u = record {
  unsent = sent ∙ u.unsent;
  truthful = rw (sent, recorders) u.truthful;
  running = u.running;
}

cors-IsCalm : (allowed : List String) (next : Handler) → IsCalm next → IsCalm (cors allowed next)
unfolding cors cors_writer
cors-IsCalm allowed next calm r c u = do
  let (sent, recorders) = cors_writer_lem allowed (r.header "Origin") c.writer
  let w = cors_writer allowed (r.header "Origin") c.writer
  let b = record c { writer = w }
  elim (Bool-cases (str_eq r.method "OPTIONS")) [
    | inl options ↦ rw options (
        Sends-Calm 204 c _ refl refl u.running
          (reheaded 204 c.writer w _ recorders (write_header-Sends 204 w (sent ∙ u.unsent))))
    | inr other ↦
        rw other
          (after-Calm c b _ refl refl recorders (calm r b (headed-IsUnsent c w sent recorders u)))
  ]

-- What the theorems about the router ask of the handlers of libraries: they write one status, and
-- do not touch what only Logging and Metrics write.
pub record IsPolite (lib : Libraries) : Type 0 where
  pub redirect_silent : IsSilent lib.redirect
  pub redirect_calm : IsCalm lib.redirect
  pub metrics_page_calm : IsCalm lib.metrics_page

ready-IsCalm :
    (ping : Option Error) (version : String) (draining : Option Bool)
    → IsCalm (ready ping version draining)
unfolding ready
ready-IsCalm ping version (some true) r c u = respond-Calm 503 _ c u
ready-IsCalm none version (some false) r c u = respond-Calm 200 _ c u
ready-IsCalm none version none r c u = respond-Calm 200 _ c u
ready-IsCalm (some e) version (some false) r c u = respond-Calm 503 _ c u
ready-IsCalm (some e) version none r c u = respond-Calm 503 _ c u

Answers-IsSilent : (h : Handler) → ((r : Request) → Answers (h r)) → IsSilent h
Answers-IsSilent h a r c = Reply-silent c (h r c) (a r c)

module _ (lib : Libraries) (d : Deps) (polite : IsPolite lib) where
  protected-IsSilent : IsSilent (protected lib d)
  unfolding protected
  protected-IsSilent = do
    let h = λ (r : Request). tasks-Answers d.json d.process r
    serve_mux-IsSilent lib.redirect (protected_routes lib d) polite.redirect_silent (
      Answers-IsSilent _ (λ r. (h r).0),
      (
        Answers-IsSilent _ (λ r. (h r).1),
        (
          Answers-IsSilent _ (λ r. (h r).2),
          (Answers-IsSilent _ (λ r. (h r).3), (Answers-IsSilent _ (λ r. (h r).4), tt)),
        ),
      ),
    )

  api-IsSilent : IsSilent (api lib d)
  unfolding api
  api-IsSilent = do
    let h = λ (r : Request). auth-Answers d.json d.process r
    let tasks = auth-IsSilent d.process (protected lib d) protected-IsSilent
    serve_mux-IsSilent lib.redirect (api_routes lib d) polite.redirect_silent (
      Answers-IsSilent _ (λ r. (h r).0),
      (
        Answers-IsSilent _ (λ r. (h r).1),
        (
          Answers-IsSilent _ (λ r. (h r).2),
          (Answers-IsSilent _ (λ r. (h r).3), (tasks, (tasks, tt))),
        ),
      ),
    )

  api_handler-IsCalm : IsCalm (api_handler lib d)
  unfolding api_handler
  api_handler-IsCalm = rw (chain_order (api_middleware lib d) (api lib d)) (
      cors-IsCalm _ _ (
        max_body_bytes-IsCalm _ _ _
          (limit-IsCalm _ _ _ (timeout-IsCalm lib.ending (api lib d) api-IsSilent))))

  pub root-IsCalm : IsCalm (root lib d)
  unfolding root health
  root-IsCalm = serve_mux-IsCalm lib.redirect (root_routes lib d) polite.redirect_calm (
    (λ r c u. respond-Calm 200 _ c u),
    (
      ready-IsCalm d.ping d.build_version d.draining,
      (polite.metrics_page_calm, (api_handler-IsCalm, tt)),
    ),
  )
