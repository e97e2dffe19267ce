-- ===== src/Http/Router/Calls.antt =====
-- What the middleware and the muxes of internal/httpapi/router.go make of the calls of handlers, and
-- for whom a call is made.
pub mod Whole
pub mod Tenants
use taskflow_api.Base.{
  String, ◌≡◌, ◌∙◌, ◌⊎◌, refl, sym, ap, inl, inr, Bool-cases, Bool, Option, some, none, List, [],
  ◌∷◌, All, true, false, str_eq, ℤ, if◌then◌else◌,
}
use taskflow_api.Domain.{Int64}
use taskflow_api.Domain.Errors.{Error, Result, ok, err}
use taskflow_api.Store.{Tables, World}
use taskflow_api.Service.Tokens.{validate}
use taskflow_api.Server.{Deployment, tokens, Call, perform}
use taskflow_api.Server.Board.Isolation.{caller}
use taskflow_api.Http.Answers.{
  log_error, Recorder, Writer, set_header, Request, Conn, Handler, respond, respond_error, on_copy,
}
use taskflow_api.Http.Middleware.{bearer, auth, cors, chain}
use taskflow_api.Http.Hardening.{
  Ending, in_time, too_late, client_gone, ended, flushed, timed_out, no_writer, timeout_body,
  max_body_bytes, security_headers, harden, timeout,
}
use taskflow_api.Http.Health.{health, ready}
use taskflow_api.Http.RateLimit.{Allow, gated, limit}
use taskflow_api.Http.Gates.{chain_order, auth_gate, validate_tables}
use taskflow_api.Http.Mux.{
  Route, value_of, path_segments, redirects, serve_found, serve_mux, http_error,
}
use taskflow_api.Http.Mux.Calm.{OnFound, found-All}
use taskflow_api.Http.Observation.{
  recorded, recover, recovered, request_id, id_or_new, unless_panic, push_recorder, pop_recorder,
  recorder_of, with_id,
}
use taskflow_api.Http.Replies.Calls.{Act, idles, acts, auth-Does, tasks-Does}
use taskflow_api.Http.Router.{
  Libraries, Deps, api, api_routes, protected, protected_routes, api_handler, api_middleware, root,
  root_routes, handler_chain, root_middleware,
}
use taskflow_api.Http.Router.Refusals.{KeepsTables, LimitsOnly}

-- The request presents a token that Validate accepts, at some time, as this user's.
abbrev pub Presents : Deployment → Request → Int64 → Type 0
Presents p r v =
    (token : String) × (w : World) × (bearer (r.header "Authorization") ≡ some token)
    × ((validate p.env p.jwt (tokens p) token w).0 ≡ ok v)

-- The call is for no user, or for the one whose token the request presents.
abbrev pub IsFor : Deployment → Request → Call → Type 0
IsFor p r x = (caller x ≡ none) ⊎ ((v : Int64) × (caller x ≡ some v) × Presents p r v)

pub weakened :
    {p : Deployment} (Q R : Call → Type 0) (t t' u : Tables)
    → ((x : Call) → Q x → R x)
    → t' ≡ t
    → Act p Q t' u
    → Act p R t u
weakened Q R t t' u f e (idles h) = idles (h ∙ e)
weakened Q R t t' u f e (acts x w fits h g) = acts x w (f x fits) (h ∙ e) g

module _ (p : Deployment) where
  -- A handler that changes the tables by one call at most, of which this is true.
  abbrev pub Makes : (Request → Call → Type 0) → Handler → Type 0
  Makes Q h = (r : Request) (c : Conn) → Act p (Q r) c.world.tables (h r c).world.tables

  abbrev pub IsUsers : Request → Call → Type 0
  IsUsers r x = caller x ≡ r.user_id

  served-Makes :
      (Q : Request → Call → Type 0) (o : Option (Route × List (String × String)))
      (methods : List String) (r : Request) (c : Conn)
      → ((r : Request) (f : String → String) (x : Call) → Q (record r { path_value = f }) x → Q r x)
      → OnFound (Makes Q) o
      → Act p (Q r) c.world.tables (serve_found o methods r c).world.tables
  unfolding http_error set_header
  served-Makes Q (some (q, vs)) methods r c paths makes =
      weakened _ _ _ _ _ (paths r (value_of vs)) refl
        (makes (record r { path_value = value_of vs }) (record c { pattern = q.pattern }))
  served-Makes Q none [] r c paths makes = idles refl
  served-Makes Q none (m ∷ ms) r c paths makes = idles refl

  pub serve_mux-Makes :
      (Q : Request → Call → Type 0) (redirect : Handler) (qs : List Route)
      → ((r : Request) (f : String → String) (x : Call) → Q (record r { path_value = f }) x → Q r x)
      → ((r : Request) (c : Conn) → (redirect r c).world.tables ≡ c.world.tables)
      → All (λ q. Makes Q q.handler) qs
      → Makes Q (serve_mux redirect qs)
  unfolding serve_mux
  serve_mux-Makes Q redirect qs paths rests a r c = elim (Bool-cases (redirects qs r)) [
    | inl away ↦ rw away (idles (rests r c))
    | inr here ↦
        rw here (served-Makes Q _ _ r c paths (found-All (Makes Q) qs r.method (path_segments r) a))
  ]

  pub auth-Makes : (next : Handler) → Makes IsUsers next → Makes (IsFor p) (auth p next)
  unfolding respond_error respond
  auth-Makes next makes r c = elim (auth_gate p next r c) [
    | inl a ↦ rw a.goes_on (
        weakened _ _ _ _ _ (λ x e. inr (a.user_id, e, (a.token, c.world, a.presented, a.accepted)))
          (validate_tables p a.token c.world) (makes _ _))
    | inr a ↦ rw a.answered (idles a.untouched)
  ]

  ended-world : (e : Ending) (w : Writer) (done : Conn) → (ended e w done).world ≡ done.world
  ended-world in_time w done = flushed_world done.panic
    where
      flushed_world : (o : Option String) → (flushed o w done).world ≡ done.world
      flushed_world none = refl
      flushed_world (some q) = refl
  ended-world too_late w done = refl
  ended-world client_gone w done = refl

  module _ (Q : Request → Call → Type 0) where
    pub timeout-Makes :
        (ending : Request → Conn → Ending) (next : Handler)
        → Makes Q next
        → Makes Q (timeout ending next)
    unfolding timeout
    timeout-Makes ending next makes r c =
        rw (ended-world (ending r c) c.writer (on_copy next r (record c { writer = no_writer })))
          (makes r (record c { writer = no_writer }))

    gated-Makes :
        (next : Handler) (r : Request) (res : Result Bool) (c : Conn)
        → Makes Q next
        → Act p (Q r) c.world.tables (gated next r res c).world.tables
    unfolding respond_error respond
    gated-Makes next r (ok true) c makes = makes r c
    gated-Makes next r (ok false) c makes = idles refl
    gated-Makes next r (err e) c makes =
        makes r (log_error "rate limiter backend error, allowing request" e c)

    pub limit-Makes :
        (allow : Allow) (ip : Request → String) (next : Handler)
        → KeepsTables allow
        → Makes Q next
        → Makes Q (limit allow ip next)
    unfolding limit
    limit-Makes allow ip next keeps makes r c =
        weakened _ _ _ _ _ (λ x fits. fits) (keeps (ip r) c.world)
          (gated-Makes next r (allow (ip r) c.world).0
            (record c { world = (allow (ip r) c.world).1 }) makes)

    pub cors-Makes :
        (allowed : List String) (next : Handler) → Makes Q next → Makes Q (cors allowed next)
    unfolding cors
    cors-Makes allowed next makes r c = elim (Bool-cases (str_eq r.method "OPTIONS")) [
      | inl options ↦ rw options (idles refl)
      | inr other ↦ rw other (makes r _)
    ]

    unless_panic-world :
        (o : Option String) (after : Conn → Conn) (c : Conn)
        → ((c : Conn) → (after c).world ≡ c.world)
        → (unless_panic o after c).world ≡ c.world
    unless_panic-world none after c rests = rests c
    unless_panic-world (some q) after c rests = refl

    pub recorded-Makes :
        (after : Request → Recorder → Conn → Conn) (next : Handler)
        → ((r : Request) (rec : Recorder) (c : Conn) → (after r rec c).world ≡ c.world)
        → Makes Q next
        → Makes Q (recorded after next)
    unfolding recorded
    recorded-Makes after next rests makes r c = do
      let c' = next r (record c { writer = push_recorder c.writer })
      rw
          (unless_panic-world c'.panic (after r (recorder_of c'.writer.recorders))
            (record c' { writer = pop_recorder c'.writer }) (rests r _))
          (makes r (record c { writer = push_recorder c.writer }))

    recovered-world :
        (o : Option String) (r : Request) (c : Conn) → (recovered o r c).world ≡ c.world
    unfolding respond_error respond
    recovered-world none r c = refl
    recovered-world (some q) r c = refl

    pub recover-Makes : (next : Handler) → Makes Q next → Makes Q (recover next)
    unfolding recover
    recover-Makes next makes r c = rw (recovered-world (next r c).panic r (next r c)) (makes r c)

    pub security_headers-Makes : (next : Handler) → Makes Q next → Makes Q (security_headers next)
    unfolding security_headers
    security_headers-Makes next makes r c = makes r (record c { writer = harden c.writer })
