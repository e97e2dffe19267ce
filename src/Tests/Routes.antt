-- ===== src/Tests/Routes.antt =====
-- The router at concrete requests.
use taskflow_api.Base.{
  ◌≡◌, refl, ◌≢◌, sym, arith, ◌∙◌, ◌≤◌, true, false, if◌then◌else◌, str_eq, ℤ, ◌↔◌, false, none,
  some, [], ◌∷◌, ◌++◌, pos,
}
use taskflow_api.Config.{settings, get_env}
use taskflow_api.Domain.Errors.{ok}
use taskflow_api.Strconv.{parse_int}
use taskflow_api.Store.{World, ◌>>=◌, map_err, time_now}
use taskflow_api.Service.Tokens.{validate}
use taskflow_api.Server.{tokens}
use taskflow_api.Text.{contains, split_slashes, split_space, equal_fold, fold_code, push_char}
use taskflow_api.Http.Answers.{
  Request, Conn, AccessLine, level_error, fields_body, respond, set_header,
}
use taskflow_api.Http.TaskHandler
use taskflow_api.Http.Health.{health}
use taskflow_api.Http.Hardening.{in_time, status_or_ok}
use taskflow_api.Http.Middleware.{bearer, chain, with_user_id}
use taskflow_api.Http.Mux.{path_segments, is_clean, http_error}
use taskflow_api.Http.Mux.Overlaps.{matching}
use taskflow_api.Http.Observation.{with_id}
use taskflow_api.Http.Observation.Calm.{IsUnsent, respond-Calm}
use taskflow_api.Http.Observation.Accounts.{Accounted}
use taskflow_api.Http.Router.{
  Libraries, Deps, protected_routes, api_routes, root_routes, root_middleware, handler_chain, api,
}
use taskflow_api.Http.Router.Calm.{IsPolite}
use taskflow_api.Http.Router.Accounts.{id_of, handler_chain-Accounted, panic_uncounted}
use taskflow_api.Http.Router.Routes.{routes_unambiguous}
use taskflow_api.Http.Router.Refusals.{IsRefusal, IsBarred, LimitsOnly}
use taskflow_api.Http.Router.Refusals.Outer.{handler_chain-Refused}
use taskflow_api.Http.Router.Calls.{Presents}
use taskflow_api.Http.Router.Calls.Whole.{LeavesTables}
use taskflow_api.Http.Router.Calls.Tenants.{serve_all, tenants_isolated}
use taskflow_api.Server.Ownership.{task_of}
use taskflow_api.Http.Router.Dispatch.{with_path_id, at, after_auth, below, task_dispatch}
use taskflow_api.Logging.{new}
use taskflow_api.Process.Wiring.{Outside, server, logger}
use taskflow_api.Process.Wiring.{deps as deps_of}
use taskflow_api.Tests.Requests.{json, request_of, conn_of}
use taskflow_api.Tests.Sample.{
  process, env, crypto, jwt, stocked, task, env-IsQuiet, IsConsistent-stocked,
}
use taskflow_api.Tests.Web.{host}

abbrev libraries : Libraries
libraries = record {
  redirect = health "redirect";
  max_bytes_reader = λ n body. body;
  ending = λ r c. in_time;
  split_host_port = λ addr. some "10.0.0.1";
  metrics_page = health "metrics";
  instrument = λ h. h;
}

libraries-IsPolite : IsPolite libraries
unfolding health respond
libraries-IsPolite = record {
  redirect_silent = λ r c. (refl, refl);
  redirect_calm = λ r c u.
      respond-Calm 200 (some (fields_body (("status", "ok") ∷ ("version", "redirect") ∷ []))) c u;
  metrics_page_calm = λ r c u.
      respond-Calm 200 (some (fields_body (("status", "ok") ∷ ("version", "metrics") ∷ []))) c u;
}

abbrev deps : Deps
deps = record {
  process = process;
  json = json;
  config = settings host;
  build_version = "dev";
  redis_client = none;
  redis = λ ip w. (ok true, w);
  in_memory = λ ip w. (ok true, w);
  draining = some false;
  ping = none;
  tags = [];
}

begun-IsUnsent : IsUnsent (conn_of stocked)
begun-IsUnsent = record { unsent = refl; truthful = tt; running = refl }

handler_chain-Accounted_example :
    let r = request_of none in
    let c = conn_of stocked in
    Accounted (with_id [] (id_of deps r c) r) c (handler_chain libraries deps r c)
handler_chain-Accounted_example =
    handler_chain-Accounted libraries deps (request_of none) (conn_of stocked) libraries-IsPolite
      begun-IsUnsent

panic_uncounted_example :
    let c = conn_of stocked in
    let next = λ (r : Request) (c : Conn). record c { panic = some "nil map" } in
    let c' = chain (root_middleware libraries deps) next (request_of none) c in
    (status_or_ok c'.writer.sent ≡ 500)
    × (c'.requests_total ≡ c.requests_total)
    × (line : AccessLine) × (c'.access ≡ c.access ++ line ∷ [])
    × (line.level ≡ level_error)
panic_uncounted_example =
    panic_uncounted deps libraries (λ r c. record c { panic = some "nil map" }) (request_of none)
      (conn_of stocked) "nil map" begun-IsUnsent
      (λ r c u. record {
        access = refl;
        counted = refl;
        depth = refl;
        truthful = u.truthful;
        panics_unsent = λ p e. u.unsent;
      })
      (λ r c. refl)

routes_unambiguous_example :
    (matching (root_routes libraries deps) "GET" ("healthz" ∷ []) ≤ 1)
    × (matching (api_routes libraries deps) "GET" ("healthz" ∷ []) ≤ 1)
    × (matching (protected_routes libraries deps) "GET" ("healthz" ∷ []) ≤ 1)
routes_unambiguous_example = routes_unambiguous libraries deps "GET" ("healthz" ∷ [])

-- A request without the header Authorization.
abbrev anonymous : Request
anonymous = record (request_of none) { header = λ name. "" }

segments_read : path_segments anonymous ≡ "api" ∷ "v1" ∷ "tasks" ∷ "1" ∷ []
unfolding path_segments split_slashes push_char
segments_read = refl

clean_read : is_clean (path_segments anonymous) ≡ true
unfolding path_segments split_slashes push_char is_clean
clean_read = refl

anonymous-IsBarred : IsBarred deps anonymous
unfolding bearer split_space
anonymous-IsBarred = record {
  rest = "1" ∷ [];
  path = segments_read;
  clean = clean_read;
  preflight = refl;
  nobody = λ w token user_id presented. absurd (cc presented);
}

deps-LimitsOnly : LimitsOnly deps
deps-LimitsOnly = record { redis = λ ip w. refl; in_memory = λ ip w. refl }

handler_chain-Refused_example :
    let c' = handler_chain libraries deps anonymous (conn_of stocked) in
    IsRefusal (status_or_ok c'.writer.sent) × (c'.world.tables ≡ stocked.tables)
handler_chain-Refused_example =
    handler_chain-Refused libraries deps anonymous (conn_of stocked) deps-LimitsOnly
      anonymous-IsBarred refl refl

libraries-LeavesTables : LeavesTables libraries
unfolding health respond
libraries-LeavesTables = record { redirect = λ r c. refl; metrics_page = λ r c. refl }

-- The anonymous request presents no token.
nobody_named : (v : ℤ) → ¬ Presents process anonymous v
unfolding bearer split_space
nobody_named v (token, w, presented, accepted) = cc presented

-- The second user tries to remove the task of the first.
abbrev stranger : Request
stranger = record (request_of none) {
  method = "DELETE";
  header = λ name. if str_eq name "Authorization" then "bearer 2" else "";
}

stranger_accepted : (w : World) → (validate env jwt (tokens process) "2" w).0 ≡ ok (pos 2)
unfolding validate ◌>>=◌ map_err time_now parse_int
stranger_accepted w = refl

bearer_two : bearer "bearer 2" ≡ some "2"
unfolding bearer split_space equal_fold fold_code
bearer_two = refl

first_user : ok (pos 2) ≢ ok (pos 1)
first_user e = ground arith

stranger_named : ¬ Presents process stranger (pos 1)
stranger_named (token, w, presented, accepted) = do
  let named : some token ≡ some "2" = sym presented ∙ bearer_two
  let same : token ≡ "2" = cc named
  first_user (sym (stranger_accepted w) ∙ (rw same at accepted))

tenants_isolated_example :
    (task_of (pos 1) (serve_all libraries deps (anonymous ∷ stranger ∷ []) stocked).tables.tasks
      ≡ some task)
    ↔ (task_of (pos 1) stocked.tables.tasks ≡ some task)
tenants_isolated_example =
    tenants_isolated libraries deps (anonymous ∷ stranger ∷ []) stocked (pos 1) (pos 1) task
      env-IsQuiet libraries-LeavesTables deps-LimitsOnly IsConsistent-stocked
      (nobody_named (pos 1), (stranger_named, tt)) refl

task_dispatch_example :
    let r = with_path_id "1" (with_user_id (pos 2) stranger) in
    let c = conn_of stocked in
    let c' = after_auth deps "2" c in
    (stranger.method ≡ "GET"
      → api libraries deps stranger c
        ≡ below (TaskHandler.get json process r (at "GET /api/v1/tasks/{id}" c')))
    × (stranger.method ≡ "PUT"
        → api libraries deps stranger c
          ≡ below (TaskHandler.update json process r (at "PUT /api/v1/tasks/{id}" c')))
    × (stranger.method ≡ "DELETE"
        → api libraries deps stranger c
          ≡ below (TaskHandler.delete json process r (at "DELETE /api/v1/tasks/{id}" c')))
    × (contains ("GET" ∷ "HEAD" ∷ "PUT" ∷ "DELETE" ∷ []) stranger.method ≡ false
        → api libraries deps stranger c
          ≡ below (
              http_error 405 "Method Not Allowed" (record c' {
                pattern = "";
                writer = set_header "Allow" "DELETE, GET, HEAD, PUT" c.writer;
              })))
unfolding path_segments split_slashes push_char is_clean
task_dispatch_example =
    task_dispatch libraries deps stranger (conn_of stocked) "1" "2" (pos 2) refl refl refl
      bearer_two (stranger_accepted stocked)

-- The process of the tests, with the settings of a host on which no variable is set.
abbrev outside : Outside
outside = record {
  env = env;
  crypto = crypto;
  jwt = jwt;
  json = json;
  redis = λ ip w. (ok true, w);
  in_memory = λ ip w. (ok true, w);
  ping_redis = λ addr. none;
  ping_database = none;
}

server_read :
    let s = server libraries outside (settings host) false in
    (s.addr ≡ ":8080")
    × (s.write_timeout ≡ pos 10000000000)
    × ((deps_of outside (settings host) false).redis_client ≡ none)
    × ((logger (settings host)).json ≡ false)
unfolding settings get_env new
server_read = (refl, refl, refl, refl)
