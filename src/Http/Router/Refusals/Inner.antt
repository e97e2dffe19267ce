-- ===== src/Http/Router/Refusals/Inner.antt =====
-- From the API's mux to the root of internal/httpapi/router.go: a request without a valid token.
use taskflow_api.Base.{
  ℕ, String, ◌≡◌, refl, ◌∙◌, inl, inr, Bool-cases, Bool, Option, some, none, List, [], ◌∷◌, true,
  false, ℤ, arith,
}
use taskflow_api.Domain.Errors.{Error, Result, ok, err}
use taskflow_api.Store.{Tables}
use taskflow_api.Http.Answers.{
  log_error, Writer, Request, Conn, Handler, respond, respond_error, Payload,
}
use taskflow_api.Http.Middleware.{cors}
use taskflow_api.Http.Hardening.{
  Ending, in_time, too_late, client_gone, ended, flushed, no_writer, timeout_body, status_or_ok,
  max_body_bytes, timeout,
}
use taskflow_api.Http.RateLimit.{Allow, gated, limit, new_rate_limiter}
use taskflow_api.Http.Gates.{chain_order}
use taskflow_api.Http.Mux.{
  path_segments, value_of, subtree, find_route, match_path, match_method, has_root, is_root_of,
  is_exact,
}
use taskflow_api.Http.Observation.Calm.{
  Sends, respond-Sends, flush-Sends, write-Sends, write_header-Sends,
}
use taskflow_api.Http.Router.{
  Libraries, Deps, api, api_handler, api_middleware, root, root_routes, route, api_path,
}
use taskflow_api.Http.Router.Calm.{cors_writer, cors_writer_lem}
use taskflow_api.Http.Router.Routes.{unauthenticated_is_401, serve_mux-found}
use taskflow_api.Http.Router.Refusals.{
  IsRefusal, IsBarred, Starts, Refused, KeepsTables, LimitsOnly, Refuses,
}

answers_refusal :
    (t : Tables) (status : ℕ) (c : Conn) (w : Writer)
    → IsRefusal status
    → Sends status w c.writer
    → c.panic ≡ none
    → c.world.tables ≡ t
    → Refused t c
answers_refusal t status c w refusal s running tables = record {
  refusal = rw s.shown refusal;
  running = running;
  tables = tables;
}

respond-Refused :
    (t : Tables) (status : ℕ) (payload : Option Payload) (c : Conn)
    → IsRefusal status
    → Starts t c
    → Refused t (respond status payload c)
unfolding respond
respond-Refused t status payload c refusal s =
    answers_refusal t status _ c.writer refusal (respond-Sends status payload c s.unsent) s.running
      s.tables

pub new_rate_limiter-tables :
    (client : Option (Option Error)) (redis in_memory : Allow)
    → KeepsTables redis
    → KeepsTables in_memory
    → KeepsTables (new_rate_limiter client redis in_memory).0
unfolding new_rate_limiter
new_rate_limiter-tables none redis in_memory a b = b
new_rate_limiter-tables (some none) redis in_memory a b = a
new_rate_limiter-tables (some (some e)) redis in_memory a b = b

module _ (d : Deps) (t : Tables) where
  api-Refuses : (lib : Libraries) → Refuses d t (api lib d)
  unfolding respond_error
  api-Refuses lib r c b s =
      let (message, world, answered, same) =
        unauthenticated_is_401 lib d r c b.rest b.path b.clean (b.nobody c.world) in
      rw answered (
        respond-Refused t 401 _ _ (inl refl)
          (record { unsent = s.unsent; running = s.running; tables = same ∙ s.tables }))

  flushed-Refused :
      (o : Option String) (c done : Conn)
      → Starts t c
      → Refused t done
      → done.panic ≡ o
      → Refused t (flushed o c.writer done)
  flushed-Refused none c done s f e =
      answers_refusal t (status_or_ok done.writer.sent) _ c.writer f.refusal
        (flush-Sends done.writer c.writer s.unsent) f.running f.tables
  flushed-Refused (some p) c done s f e = absurd (cc (f.running, e))

  ended-Refused :
      (e : Ending) (c done : Conn) → Starts t c → Refused t done → Refused t (ended e c.writer done)
  ended-Refused in_time c done s f = flushed-Refused done.panic c done s f refl
  ended-Refused too_late c done s f =
      answers_refusal t 503 _ c.writer (inr (inr refl))
        (write-Sends 503 timeout_body _ _ (write_header-Sends 503 c.writer s.unsent)) refl f.tables
  ended-Refused client_gone c done s f =
      answers_refusal t 503 _ c.writer (inr (inr refl)) (write_header-Sends 503 c.writer s.unsent)
        refl f.tables

  timeout-Refuses :
      (ending : Request → Conn → Ending) (next : Handler)
      → Refuses d t next
      → Refuses d t (timeout ending next)
  unfolding timeout
  timeout-Refuses ending next refuses r c b s = do
    let f =
        refuses r (record c { writer = no_writer }) b
          (record { unsent = refl; running = s.running; tables = s.tables })
    ended-Refused (ending r c) c _ s
        (record { refusal = f.refusal; running = f.running; tables = f.tables })

  -- The limiter's backend reads and writes no table.
  gated-Refused :
      (next : Handler) (r : Request) (res : Result Bool) (c : Conn)
      → Refuses d t next
      → IsBarred d r
      → Starts t c
      → Refused t (gated next r res c)
  unfolding respond_error
  gated-Refused next r (ok true) c refuses b s = refuses r c b s
  gated-Refused next r (ok false) c refuses b s = respond-Refused t 429 _ c (inr (inl refl)) s
  gated-Refused next r (err e) c refuses b s =
      refuses r (log_error "rate limiter backend error, allowing request" e c) b
        (record { unsent = s.unsent; running = s.running; tables = s.tables })

  limit-Refuses :
      (allow : Allow) (ip : Request → String) (next : Handler)
      → KeepsTables allow
      → Refuses d t next
      → Refuses d t (limit allow ip next)
  unfolding limit
  limit-Refuses allow ip next keeps refuses r c b s =
      gated-Refused next r (allow (ip r) c.world).0 (record c { world = (allow (ip r) c.world).1 })
        refuses b
        (record {
          unsent = s.unsent;
          running = s.running;
          tables = keeps (ip r) c.world ∙ s.tables;
        })

  max_body_bytes-Refuses :
      (reader : ℤ → String → String) (max : ℤ) (next : Handler)
      → Refuses d t next
      → Refuses d t (max_body_bytes reader max next)
  unfolding max_body_bytes path_segments
  max_body_bytes-Refuses reader max next refuses r c b s =
      refuses (record r { body = reader max r.body }) c
        (record {
          rest = b.rest;
          path = b.path;
          clean = b.clean;
          preflight = b.preflight;
          nobody = b.nobody;
        })
        s

  cors-Refuses :
      (allowed : List String) (next : Handler) → Refuses d t next → Refuses d t (cors allowed next)
  unfolding cors cors_writer
  cors-Refuses allowed next refuses r c b s = do
    let (sent, recorders) = cors_writer_lem allowed (r.header "Origin") c.writer
    let w = cors_writer allowed (r.header "Origin") c.writer
    rw b.preflight (
        refuses r (record c { writer = w }) b
          (record { unsent = sent ∙ s.unsent; running = s.running; tables = s.tables }))

  api_handler-Refuses : (lib : Libraries) → LimitsOnly d → Refuses d t (api_handler lib d)
  unfolding api_handler
  api_handler-Refuses lib only = rw (chain_order (api_middleware lib d) (api lib d)) (
      cors-Refuses _ _ (
        max_body_bytes-Refuses _ _ _ (
          limit-Refuses _ _ _
            (new_rate_limiter-tables d.redis_client d.redis d.in_memory only.redis only.in_memory)
            (timeout-Refuses _ _ (api-Refuses lib)))))

  find-api :
      (lib : Libraries) (m : String) (rest : List String)
      → find_route (root_routes lib d) m ("api" ∷ "v1" ∷ "tasks" ∷ rest)
        ≡ some (route "/api/v1/" "" (api_path (subtree ∷ [])) (api_handler lib d), [])
  unfolding find_route match_path match_method
  find-api lib m rest = elim (Bool-cases (match_method "GET" m)) [
    | inl e ↦ rw e refl
    | inr e ↦ rw e refl
  ]

  no_root :
      (lib : Libraries) (m : String) (rest : List String)
      → has_root (root_routes lib d) m ("api" ∷ "v1" ∷ "tasks" ∷ rest) ≡ false
  unfolding has_root is_root_of is_exact match_method
  no_root lib m rest = elim (Bool-cases (match_method "GET" m)) [
    | inl e ↦ rw e refl
    | inr e ↦ rw e refl
  ]

  pub root-Refuses : (lib : Libraries) → LimitsOnly d → Refuses d t (root lib d)
  unfolding root path_segments
  root-Refuses lib only r c b s =
      rw
        (serve_mux-found lib.redirect (root_routes lib d) r c _ _ b.path (rw⁻¹ b.path b.clean)
          (find-api lib r.method b.rest) (rw (no_root lib r.method b.rest) (ground arith)))
        (api_handler-Refuses lib only (record r { path_value = value_of [] })
          (record c { pattern = "/api/v1/" })
          (record {
            rest = b.rest;
            path = b.path;
            clean = b.clean;
            preflight = b.preflight;
            nobody = b.nobody;
          })
          (record { unsent = s.unsent; running = s.running; tables = s.tables }))
