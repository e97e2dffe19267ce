-- ===== src/Http/Router/Dispatch.antt =====
-- Which task handler serves an authenticated request, by its method.
use taskflow_api.Base.{
  String, ◌≡◌, refl, ap, ◌∙◌, Option, none, some, List, [], ◌∷◌, true, false, str_eq, str_eq_iff,
  arith,
}
use taskflow_api.Text.{contains}
use taskflow_api.Text.Sorting.{join}
use taskflow_api.Domain.{Int64}
use taskflow_api.Domain.Errors.{Result, ok}
use taskflow_api.Store.{World}
use taskflow_api.Service.Tokens.{validate}
use taskflow_api.Server.{tokens}
use taskflow_api.Http.Middleware.{bearer, auth, with_user_id}
use taskflow_api.Http.Answers.{Request, Conn, Handler, set_header, on_copy}
use taskflow_api.Http.TaskHandler
use taskflow_api.Http.Mux.{
  path_segments, is_clean, match_method, find_route, is_root_of, has_root, is_exact,
  matching_methods, http_error, value_of, Route, Segment, literal, wildcard, subtree, serve_found,
}
use taskflow_api.Http.Mux.Steps.{found}
use taskflow_api.Http.Router.{
  get_route, update_route, delete_route, api_path, Libraries, Deps, protected_routes, protected,
  api,
}
use taskflow_api.Http.Router.Routes.{serve_mux-found, behind_auth}
use taskflow_api.Http.Router.Items.{task_path, allowed, find-get, find-put, find-delete, find-other}

-- A request for one task, with what the handlers see of its path.
abbrev pub with_path_id : String → Request → Request
with_path_id id r = record r { path_value = value_of (("id", id) ∷ []) }

abbrev pub at : String → Conn → Conn
at pattern c = record c { pattern = pattern }

-- What Validate makes of a bearer token.
abbrev pub validated : Deps → String → Conn → Result Int64 × World
validated d token c = validate d.process.env d.process.jwt (tokens d.process) token c.world

-- What Auth hands on, in the mux of the API.
abbrev pub after_auth : Deps → String → Conn → Conn
after_auth d token c = record c { pattern = "/api/v1/tasks/"; world = (validated d token c).1 }

-- Auth gives the handler behind it a copy of the request, so that the middleware of the API sees the
-- pattern of its own mux.
abbrev pub below : Conn → Conn
below c = record c { pattern = "/api/v1/tasks/" }

is_root_of-exact :
    (ps : List Segment) (path : List String) → is_exact ps ≡ true → is_root_of ps path ≡ false
unfolding is_exact is_root_of
is_root_of-exact [] path h = refl
is_root_of-exact (subtree ∷ ps) path h = cc h
is_root_of-exact (literal l ∷ ps) [] h = refl
is_root_of-exact (literal l ∷ ps) (s ∷ ss) h = rw (is_root_of-exact ps ss h) (ground arith)
is_root_of-exact (wildcard n ∷ ps) [] h = refl
is_root_of-exact (wildcard n ∷ ps) (s ∷ ss) h = rw (is_root_of-exact ps ss h) (ground arith)

other_methods :
    (m : String)
    → contains ("GET" ∷ "HEAD" ∷ "PUT" ∷ "DELETE" ∷ []) m ≡ false
    → (match_method "GET" m ≡ false)
      × (match_method "PUT" m ≡ false)
      × (match_method "DELETE" m ≡ false)
unfolding contains match_method
other_methods m h = ground (arith, str_eq_iff m "HEAD", str_eq_iff "HEAD" m)

module _ (lib : Libraries) (d : Deps) where
  no_root : (m : String) (path : List String) → has_root (protected_routes lib d) m path ≡ false
  unfolding has_root is_exact
  no_root m path =
      rw
        (
          is_root_of-exact (api_path (literal "tasks" ∷ [])) path refl,
          is_root_of-exact (api_path (literal "tasks" ∷ wildcard "id" ∷ [])) path refl,
        )
        (ground arith)

  serves :
      (r : Request) (c : Conn) (path : List String) (o : Option (Route × List (String × String)))
      → path_segments r ≡ path
      → is_clean (path_segments r) ≡ true
      → find_route (protected_routes lib d) r.method path ≡ o
      → protected lib d r c ≡ serve_found o (matching_methods (protected_routes lib d) path) r c
  unfolding protected
  serves r c path o same clean found =
      serve_mux-found lib.redirect (protected_routes lib d) r c path o same (rw⁻¹ same clean) found
        (rw (no_root r.method path) (ground arith))

  -- What the mux behind authentication does with the request.
  protected_dispatch :
      (r : Request) (c : Conn) (id : String)
      → path_segments r ≡ "api" ∷ "v1" ∷ "tasks" ∷ id ∷ []
      → is_clean (path_segments r) ≡ true
      → str_eq id "" ≡ false
      → (r.method ≡ "GET"
          → protected lib d r c
            ≡ TaskHandler.get d.json d.process (with_path_id id r) (at "GET /api/v1/tasks/{id}" c))
        × (r.method ≡ "PUT"
            → protected lib d r c
              ≡ TaskHandler.update d.json d.process
                  (with_path_id id r)
                  (at "PUT /api/v1/tasks/{id}" c))
        × (r.method ≡ "DELETE"
            → protected lib d r c
              ≡ TaskHandler.delete d.json d.process
                  (with_path_id id r)
                  (at "DELETE /api/v1/tasks/{id}" c))
        × (contains ("GET" ∷ "HEAD" ∷ "PUT" ∷ "DELETE" ∷ []) r.method ≡ false
            → protected lib d r c
              ≡ http_error 405 "Method Not Allowed" (record c {
                pattern = "";
                writer = set_header "Allow" "DELETE, GET, HEAD, PUT" c.writer;
              }))
  unfolding join
  protected_dispatch r c id path clean named = (
    λ m.
        serves r c (task_path lib d id) (some (get_route lib d, ("id", id) ∷ [])) path clean
          (rw m (find-get lib d id named)),
    λ m.
        serves r c (task_path lib d id) (some (update_route lib d, ("id", id) ∷ [])) path clean
          (rw m (find-put lib d id named)),
    λ m.
        serves r c (task_path lib d id) (some (delete_route lib d, ("id", id) ∷ [])) path clean
          (rw m (find-delete lib d id named)),
    λ m.
        let (not_get, not_put, not_delete) = other_methods r.method m in
        serves r c (task_path lib d id) none path clean
          (find-other lib d id r.method not_get not_put not_delete)
        ∙ rw (allowed lib d id named) refl,
  )

  -- What Auth hands to the mux behind it.
  admitted :
      (next : Handler) (r : Request) (c : Conn) (token : String) (user_id : Int64)
      → bearer (r.header "Authorization") ≡ some token
      → (validated d token c).0 ≡ ok user_id
      → auth d.process next r c
        ≡ on_copy next (with_user_id user_id r) (record c { world = (validated d token c).1 })
  unfolding auth
  admitted next r c token user_id presented accepted = rw (presented, accepted) refl

  passed_on :
      (r : Request) (c : Conn) (id token : String) (user_id : Int64) {c' : Conn}
      → path_segments r ≡ "api" ∷ "v1" ∷ "tasks" ∷ id ∷ []
      → is_clean (path_segments r) ≡ true
      → bearer (r.header "Authorization") ≡ some token
      → (validated d token c).0 ≡ ok user_id
      → protected lib d
          (with_user_id user_id (record r { path_value = value_of [] }))
          (after_auth d token c)
        ≡ c'
      → api lib d r c ≡ below c'
  passed_on r c id token user_id path clean presented accepted e =
      behind_auth lib d r c (id ∷ []) path clean
      ∙ admitted (protected lib d) (record r { path_value = value_of [] })
          (record c { pattern = "/api/v1/tasks/" }) token user_id presented accepted
      ∙ ap below e

  -- In the mux of the API, inside CORS, the time-out and the rate limiter, a request for one task
  -- goes to the handler of its method, as the user of its token. If the path is that of a task,
  -- with an id that is not empty, and `cleanPath` leaves it as it is, and Validate accepts the
  -- bearer token, then GET, PUT and DELETE reach their handlers as that user and with the id of the
  -- path, and a method that is none of these nor HEAD is answered by 405, with the methods that are
  -- allowed.
  pub task_dispatch :
      (r : Request) (c : Conn) (id token : String) (user_id : Int64)
      → path_segments r ≡ "api" ∷ "v1" ∷ "tasks" ∷ id ∷ []
      → is_clean (path_segments r) ≡ true
      → str_eq id "" ≡ false
      → bearer (r.header "Authorization") ≡ some token
      → (validated d token c).0 ≡ ok user_id
      → let r' = with_path_id id (with_user_id user_id r) in
        let c' = after_auth d token c in
        (r.method ≡ "GET"
          → api lib d r c
            ≡ below (TaskHandler.get d.json d.process r' (at "GET /api/v1/tasks/{id}" c')))
        × (r.method ≡ "PUT"
            → api lib d r c
              ≡ below (TaskHandler.update d.json d.process r' (at "PUT /api/v1/tasks/{id}" c')))
        × (r.method ≡ "DELETE"
            → api lib d r c
              ≡ below (TaskHandler.delete d.json d.process r' (at "DELETE /api/v1/tasks/{id}" c')))
        × (contains ("GET" ∷ "HEAD" ∷ "PUT" ∷ "DELETE" ∷ []) r.method ≡ false
            → api lib d r c
              ≡ below (
                  http_error 405 "Method Not Allowed" (record c' {
                    pattern = "";
                    writer = set_header "Allow" "DELETE, GET, HEAD, PUT" c.writer;
                  })))
  unfolding path_segments
  task_dispatch r c id token user_id path clean named presented accepted =
      let (get, put, delete, other) =
        protected_dispatch (with_user_id user_id (record r { path_value = value_of [] }))
          (after_auth d token c) id path clean named in
      (
        λ m. passed_on r c id token user_id path clean presented accepted (get m),
        λ m. passed_on r c id token user_id path clean presented accepted (put m),
        λ m. passed_on r c id token user_id path clean presented accepted (delete m),
        λ m. passed_on r c id token user_id path clean presented accepted (other m),
      )
