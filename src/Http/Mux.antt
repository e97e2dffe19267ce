-- ===== src/Http/Mux.antt =====
-- What the router uses of `http.ServeMux` of Go's net/http: patterns with a method, literals,
-- wildcards of one segment and a final "/" that stands for every path below.
pub mod Calm
pub mod Overlaps
pub mod Steps
use taskflow_api.Base.{
  ℕ, String, ◌&&◌, ◌||◌, not, Option, none, some, Bool, true, false, List, [], ◌∷◌, ◌++◌, str_eq,
  if◌then◌else◌,
}
use taskflow_api.Text.{split_slashes, contains}
use taskflow_api.Text.Sorting.{sort_strings, join}
use taskflow_api.Http.Answers.{text_body, set_header, write_header, write, Request, Conn, Handler}

pub data Segment : Type 0 where
  literal : String → Segment
  wildcard : String → Segment
  subtree : Segment

-- A registered pattern: its text, the method or "", and the segments of its path.
pub record Route : Type 0 where
  pub pattern : String
  pub method : String
  pub segments : List Segment
  pub handler : Handler

-- The path's segments: what stands after each "/".
abbrev segments_of : List String → List String
segments_of [] = []
segments_of (before ∷ ss) = ss

unfoldable pub path_segments : Request → List String
path_segments r = segments_of (split_slashes r.path)

-- A path that `cleanPath` leaves as it is.
unfoldable pub is_clean : List String → Bool
is_clean [] = false
is_clean (s ∷ []) = not (str_eq s "." || str_eq s "..")
is_clean (s ∷ t ∷ ss) = not (str_eq s "" || str_eq s "." || str_eq s "..") && is_clean (t ∷ ss)

-- The values of the wildcards, if the pattern matches the path.
unfoldable pub match_path : List Segment → List String → Option (List (String × String))
match_path [] [] = some []
match_path [] (s ∷ ss) = none
match_path (p ∷ ps) [] = none
match_path (subtree ∷ ps) (s ∷ ss) = some []
match_path (literal l ∷ ps) (s ∷ ss) =
    let rest = match_path ps ss in if str_eq l s then rest else none
match_path (wildcard name ∷ ps) (s ∷ ss) =
    let rest = match_path ps ss in
    if str_eq s "" then none else elim rest [ none ↦ none | some vs ↦ some ((name, s) ∷ vs) ]

-- A pattern for GET is one for HEAD, too.
unfoldable pub match_method : String → String → Bool
match_method pattern method =
    str_eq pattern "" || str_eq pattern method || (str_eq pattern "GET" && str_eq method "HEAD")

-- The first pattern that matches. The most specific one would be chosen among several, which the
-- route tables of this program do not have.
unfoldable pub find_route :
    List Route → String → List String → Option (Route × List (String × String))
find_route [] method path = none
find_route (q ∷ qs) method path =
    let rest = find_route qs method path in
    if match_method q.method method
    then elim (match_path q.segments path) [ none ↦ rest | some vs ↦ some (q, vs) ]
    else rest

-- A path without "/" at its end whose subtree is registered, by its root.
unfoldable pub is_root_of : List Segment → List String → Bool
is_root_of [] ss = false
is_root_of (subtree ∷ ps) [] = true
is_root_of (subtree ∷ ps) (s ∷ ss) = false
is_root_of (literal l ∷ ps) [] = false
is_root_of (literal l ∷ ps) (s ∷ ss) = str_eq l s && is_root_of ps ss
is_root_of (wildcard name ∷ ps) [] = false
is_root_of (wildcard name ∷ ps) (s ∷ ss) = not (str_eq s "") && is_root_of ps ss

unfoldable pub has_root : List Route → String → List String → Bool
has_root [] method path = false
has_root (q ∷ qs) method path =
    (match_method q.method method && is_root_of q.segments path) || has_root qs method path

-- Whether a pattern without a final "/" matches.
unfoldable pub is_exact : List Segment → Bool
is_exact [] = true
is_exact (subtree ∷ ps) = false
is_exact (literal l ∷ ps) = is_exact ps
is_exact (wildcard name ∷ ps) = is_exact ps

abbrev pub found_exact : Option (Route × List (String × String)) → Bool
found_exact none = false
found_exact (some (q, vs)) = is_exact q.segments

-- `matchOrRedirect`, and the test of the cleaned path: the mux answers by a redirection.
unfoldable pub redirects : List Route → Request → Bool
redirects qs r =
    let path = path_segments r in
    (not (found_exact (find_route qs r.method path)) && has_root qs r.method path)
    || (not (str_eq r.method "CONNECT") && not (is_clean path))

-- A key of a set that is kept as a list.
unfoldable pub add_method : String → List String → List String
add_method m ms = if contains ms m then ms else m ∷ ms

-- The methods of a pattern: none, if it has no method, and HEAD, too, if it has GET.
unfoldable pub add_methods : String → List String → List String
add_methods method ms =
    if str_eq method ""
    then ms
    else if str_eq method "GET"
    then add_method "GET" (add_method "HEAD" ms)
    else add_method method ms

-- The methods of the patterns that match a path.
unfoldable pub methods_at : List Route → List String → List String → List String
methods_at [] path ms = ms
methods_at (q ∷ qs) path ms =
    let rest = methods_at qs path ms in
    elim (match_path q.segments path) [ none ↦ rest | some vs ↦ add_methods q.method rest ]

unfoldable pub ends_in_slash : List String → Bool
ends_in_slash [] = false
ends_in_slash (s ∷ []) = str_eq s ""
ends_in_slash (s ∷ t ∷ ss) = ends_in_slash (t ∷ ss)

-- `matchingMethods`
unfoldable pub matching_methods : List Route → List String → List String
matching_methods qs path = do
  let here = methods_at qs path []
  sort_strings (if ends_in_slash path then here else methods_at qs (path ++ "" ∷ []) here)

-- `http.Error`
unfoldable pub http_error : ℕ → String → Conn → Conn
http_error status message c = record c {
  writer = write (text_body message) (
      write_header status (
        set_header "X-Content-Type-Options" "nosniff"
          (set_header "Content-Type" "text/plain; charset=utf-8" c.writer)));
}

-- `r.PathValue(name)`
unfoldable pub value_of : List (String × String) → String → String
value_of [] name = ""
value_of ((n, v) ∷ vs) name = let rest = value_of vs name in if str_eq n name then v else rest

-- What the mux has found: a pattern's handler, which sees the values of the wildcards, and else the
-- answers 404 and 405.
abbrev pub serve_found : Option (Route × List (String × String)) → List String → Handler
serve_found (some (q, vs)) methods r c =
    q.handler (record r { path_value = value_of vs }) (record c { pattern = q.pattern })
serve_found none [] r c = http_error 404 "404 page not found" (record c { pattern = "" })
serve_found none (m ∷ ms) r c =
    http_error 405 "Method Not Allowed"
      (record c { pattern = ""; writer = set_header "Allow" (join ", " (m ∷ ms)) c.writer })

-- `ServeMux.ServeHTTP`, with the handler that redirects.
unfoldable pub serve_mux : Handler → List Route → Handler
serve_mux redirect qs r c =
    if redirects qs r
    then redirect r c
    else serve_found (find_route qs r.method (path_segments r))
        (matching_methods qs (path_segments r)) r c
