-- ===== src/Http/Router/Routes.antt =====
-- Which handler the muxes of internal/httpapi/router.go choose for a request.
use taskflow_api.Base.{
  ◌≤◌, String, ◌≡◌, ◌≢◌, ◌∙◌, refl, inl, inr, Bool-cases, arith, Option, some, List, [], ◌∷◌, true,
  false, ◌&&◌, not,
}
use taskflow_api.Domain.{Int64}
use taskflow_api.Domain.Errors.{ok}
use taskflow_api.Store.{World}
use taskflow_api.Service.Tokens.{validate}
use taskflow_api.Server.{Deployment, tokens}
use taskflow_api.Http.Answers.{Request, Conn, Handler, respond_error}
use taskflow_api.Http.Middleware.{bearer, auth}
use taskflow_api.Http.Gates.{auth_gate}
use taskflow_api.Http.Mux.{
  Segment, literal, subtree, Route, serve_found, path_segments, is_clean, match_path, match_method,
  find_route, is_root_of, has_root, is_exact, found_exact, redirects, matching_methods, value_of,
  serve_mux,
}
use taskflow_api.Http.Mux.Overlaps.{
  matching, all_disjoint, disjoint_from, paths_overlap, methods_overlap, matching-all_disjoint,
}
use taskflow_api.Http.Router.{
  Libraries, Deps, protected_routes, protected, api_routes, api, root_routes,
}

-- No request is matched by two patterns of one mux, so that the order in which they are registered,
-- and which is the more specific, do not matter.
pub routes_unambiguous :
    (lib : Libraries) (d : Deps) (method : String) (path : List String)
    → (matching (root_routes lib d) method path ≤ 1)
      × (matching (api_routes lib d) method path ≤ 1)
      × (matching (protected_routes lib d) method path ≤ 1)
unfolding all_disjoint disjoint_from paths_overlap methods_overlap
routes_unambiguous lib d method path = (
  matching-all_disjoint (root_routes lib d) method path refl,
  matching-all_disjoint (api_routes lib d) method path refl,
  matching-all_disjoint (protected_routes lib d) method path refl,
)

-- The pattern that the API's mux finds for a path of the tasks.
abbrev tasks_segments : List String → List Segment
tasks_segments [] = literal "api" ∷ literal "v1" ∷ literal "tasks" ∷ []
tasks_segments (s ∷ ss) = literal "api" ∷ literal "v1" ∷ literal "tasks" ∷ subtree ∷ []

abbrev pub tasks_pattern : List String → String
tasks_pattern [] = "/api/v1/tasks"
tasks_pattern (s ∷ ss) = "/api/v1/tasks/"

any_method : (m : String) → match_method "" m ≡ true
unfolding match_method
any_method m = refl

-- A mux serves what it finds, if it does not redirect.
pub serve_mux-found :
    (redirect : Handler) (qs : List Route) (r : Request) (c : Conn) (path : List String)
    (o : Option (Route × List (String × String)))
    → path_segments r ≡ path
    → is_clean path ≡ true
    → find_route qs r.method path ≡ o
    → (not (found_exact o) && has_root qs r.method path) ≡ false
    → serve_mux redirect qs r c ≡ serve_found o (matching_methods qs path) r c
unfolding serve_mux redirects
serve_mux-found redirect qs r c path o same clean found rootless =
    rw (same, clean, found, rootless) (ground arith)

module _ (lib : Libraries) (d : Deps) where
  abbrev tasks_route : List String → Route
  tasks_route rest = record {
    pattern = tasks_pattern rest;
    method = "";
    segments = tasks_segments rest;
    handler = auth d.process (protected lib d);
  }

  find-tasks :
      (m : String) (rest : List String)
      → find_route (api_routes lib d) m ("api" ∷ "v1" ∷ "tasks" ∷ rest)
        ≡ some (tasks_route rest, [])
  unfolding find_route match_path
  find-tasks m [] = elim (Bool-cases (match_method "POST" m)) [
    | inl e ↦ rw (e, any_method m) refl
    | inr e ↦ rw (e, any_method m) refl
  ]
  find-tasks m (s ∷ ss) = elim (Bool-cases (match_method "POST" m)) [
    | inl e ↦ rw (e, any_method m) refl
    | inr e ↦ rw (e, any_method m) refl
  ]

  no_root :
      (m : String) (rest : List String)
      → (not (is_exact (tasks_segments rest))
          && has_root (api_routes lib d) m ("api" ∷ "v1" ∷ "tasks" ∷ rest))
        ≡ false
  unfolding has_root is_root_of is_exact
  no_root m [] = refl
  no_root m (s ∷ ss) = elim (Bool-cases (match_method "POST" m)) [
    | inl e ↦ rw (e, any_method m) refl
    | inr e ↦ rw (e, any_method m) refl
  ]

  pub behind_auth :
      (r : Request) (c : Conn) (rest : List String)
      → path_segments r ≡ "api" ∷ "v1" ∷ "tasks" ∷ rest
      → is_clean (path_segments r) ≡ true
      → api lib d r c
        ≡ auth d.process
            (protected lib d)
            (record r { path_value = value_of [] })
            (record c { pattern = tasks_pattern rest })
  unfolding api
  behind_auth r c rest path clean =
      serve_mux-found lib.redirect (api_routes lib d) r c ("api" ∷ "v1" ∷ "tasks" ∷ rest)
        (some (tasks_route rest, [])) path (rw⁻¹ path clean) (find-tasks r.method rest)
        (no_root r.method rest)

-- The request has no bearer token that Validate accepts.
abbrev pub IsUnauthenticated : Deployment → Request → World → Type 0
IsUnauthenticated d r w =
    (token : String) (user_id : Int64)
    → bearer (r.header "Authorization") ≡ some token
    → (validate d.env d.jwt (tokens d) token w).0 ≢ ok user_id

-- No route of the tasks is reached without a valid token: if the path of a request is that of the
-- tasks or below it, and the request has no bearer token that Validate accepts, then the API answers
-- by 401 whatever the method, and no table is changed.
pub unauthenticated_is_401 :
    (lib : Libraries) (d : Deps) (r : Request) (c : Conn) (rest : List String)
    → path_segments r ≡ "api" ∷ "v1" ∷ "tasks" ∷ rest
    → is_clean (path_segments r) ≡ true
    → IsUnauthenticated d.process r c.world
    → (message : String) × (world : World) × (api lib d r c
        ≡ respond_error
            (record r { path_value = value_of [] })
            401
            "UNAUTHORIZED"
            message
            (record c { pattern = tasks_pattern rest; world = world }))
      × (world.tables ≡ c.world.tables)
unauthenticated_is_401 lib d r c rest path clean nobody =
    elim (auth_gate d.process (protected lib d) (record r { path_value = value_of [] })
      (record c { pattern = tasks_pattern rest })) [
        | inl a ↦ absurd (nobody a.token a.user_id a.presented a.accepted)
        | inr a ↦
            (a.message, a.world, behind_auth lib d r c rest path clean ∙ a.answered, a.untouched)
      ]
