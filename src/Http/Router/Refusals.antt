-- ===== src/Http/Router/Refusals.antt =====
-- A request without a valid token, through the whole router of internal/httpapi/router.go.
pub mod Inner
pub mod Outer
use taskflow_api.Base.{
  ℕ, String, ◌≡◌, ◌⊎◌, refl, ◌∙◌, inl, inr, Bool-cases, Bool, Option, some, none, List, [], ◌∷◌,
  true, false, str_eq, ℤ, arith,
}
use taskflow_api.Domain.Errors.{Error, Result, ok, err}
use taskflow_api.Store.{Tables, World, rand_read}
use taskflow_api.Http.Answers.{
  log_error, Recorder, Writer, set_header, Request, Conn, Handler, respond, respond_error, Payload,
}
use taskflow_api.Http.Middleware.{cors}
use taskflow_api.Http.Hardening.{
  Ending, in_time, too_late, client_gone, ended, flushed, no_writer, timeout_body, status_or_ok,
  max_body_bytes, security_headers, harden, timeout,
}
use taskflow_api.Http.RateLimit.{Allow, gated, limit, new_rate_limiter}
use taskflow_api.Http.Gates.{chain_order}
use taskflow_api.Http.Mux.{
  path_segments, is_clean, value_of, subtree, find_route, match_path, match_method, has_root,
  is_root_of, is_exact,
}
use taskflow_api.Http.Observation.{
  recorded, logging, metrics, recover, request_id, id_or_new, generate_request_id, unless_panic,
  recovered, push_recorder, pop_recorder, recorder_of, log_access, count_request, with_id,
}
use taskflow_api.Http.Observation.Calm.{
  Sends, respond-Sends, flush-Sends, write-Sends, write_header-Sends,
}
use taskflow_api.Http.Router.{
  Libraries, Deps, api, api_handler, api_middleware, root, handler_chain, root_middleware,
  root_routes, route, api_path,
}
use taskflow_api.Http.Router.Calm.{cors_writer, cors_writer_lem}
use taskflow_api.Http.Router.Routes.{IsUnauthenticated, unauthenticated_is_401, serve_mux-found}

-- The answers that a client gets before a task handler: no token, too many requests, or too late.
abbrev pub IsRefusal : ℕ → Type 0
IsRefusal status = (status ≡ 401) ⊎ ((status ≡ 429) ⊎ (status ≡ 503))

-- The request is for the tasks, with a path that `cleanPath` leaves as it is, is no preflight of CORS,
-- and has no valid token at any time.
pub record IsBarred (d : Deps) (r : Request) : Type 0 where
  pub rest : List String
  pub path : path_segments r ≡ "api" ∷ "v1" ∷ "tasks" ∷ rest
  pub clean : is_clean (path_segments r) ≡ true
  pub preflight : str_eq r.method "OPTIONS" ≡ false
  pub nobody : (w : World) → IsUnauthenticated d.process r w

-- Nothing was sent yet, and the tables are these.
pub record Starts (t : Tables) (c : Conn) : Type 0 where
  pub unsent : c.writer.sent ≡ none
  pub running : c.panic ≡ none
  pub tables : c.world.tables ≡ t

pub record Refused (t : Tables) (c : Conn) : Type 0 where
  pub refusal : IsRefusal (status_or_ok c.writer.sent)
  pub running : c.panic ≡ none
  pub tables : c.world.tables ≡ t

-- The backends of the rate limiter keep to themselves: they read and write no table.
abbrev pub KeepsTables : Allow → Type 0
KeepsTables allow = (ip : String) (w : World) → (allow ip w).1.tables ≡ w.tables

pub record LimitsOnly (d : Deps) : Type 0 where
  pub redis : KeepsTables d.redis
  pub in_memory : KeepsTables d.in_memory

-- A handler that refuses every barred request.
abbrev pub Refuses : Deps → Tables → Handler → Type 0
Refuses d t h = (r : Request) (c : Conn) → IsBarred d r → Starts t c → Refused t (h r c)
