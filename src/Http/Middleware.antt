-- ===== src/Http/Middleware.antt =====
-- internal/httpapi/middleware: auth.go, cors.go and chain.go.
use taskflow_api.Base.{
  String, ◌||◌, ◌&&◌, not, Option, none, some, Bool, List, [], ◌∷◌, ◌++◌, str_eq, if◌then◌else◌,
}
use taskflow_api.Domain.{Int64}
use taskflow_api.Domain.Errors.{Result, ok, err}
use taskflow_api.Text.{split_space, equal_fold, contains}
use taskflow_api.Service.Tokens.{validate}
use taskflow_api.Server.{Deployment, tokens}
use taskflow_api.Http.Answers.{
  Request, Conn, Writer, Handler, on_copy, set_header, write_header, respond_error,
}

-- `func(http.Handler) http.Handler`
abbrev pub Middleware : Type 0
Middleware = Handler → Handler

abbrev unauthorized : Request → String → Conn → Conn
unauthorized r message = respond_error r 401 "UNAUTHORIZED" message

-- The token of a header "Bearer <token>".
abbrev pub bearer_of : Option (String × String) → Option String
bearer_of none = none
bearer_of (some (scheme, token)) = if equal_fold scheme "Bearer" then some token else none

unfoldable pub bearer : String → Option String
bearer header = bearer_of (split_space header)

-- `ctx := context.WithValue(r.Context(), userIDKey, userID)` and `r.WithContext(ctx)`
abbrev pub with_user_id : Int64 → Request → Request
with_user_id user_id r = record r { user_id = some user_id }

abbrev pub admit : Handler → Request → Result Int64 → Conn → Conn
admit next r (ok user_id) c = on_copy next (with_user_id user_id r) c
admit next r (err e) c = unauthorized r "invalid or expired token" c

abbrev pub check_bearer : Deployment → Handler → Request → Option String → Conn → Conn
check_bearer d next r none c = unauthorized r "missing or malformed Authorization header" c
check_bearer d next r (some token) c =
    let (res, w) = validate d.env d.jwt (tokens d) token c.world in
    admit next r res (record c { world = w })

-- `Auth(tokens)`
unfoldable pub auth : Deployment → Middleware
auth d next r c = check_bearer d next r (bearer (r.header "Authorization")) c

-- The headers that allow an origin.
unfoldable pub allow_origin : String → Writer → Writer
allow_origin origin w = set_header "Access-Control-Max-Age" "600" (
    set_header "Access-Control-Allow-Headers" "Authorization, Content-Type" (
      set_header "Access-Control-Allow-Methods" "GET, POST, PUT, DELETE, OPTIONS"
        (set_header "Vary" "Origin" (set_header "Access-Control-Allow-Origin" origin w))))

-- Whether the origin of a request is allowed.
unfoldable pub origin_allowed : List String → String → Bool
origin_allowed allowed origin =
    not (str_eq origin "") && (contains allowed "*" || contains allowed origin)

-- `CORS(allowedOrigins)`
unfoldable pub cors : List String → Middleware
cors allowed next r c =
    let origin = r.header "Origin" in
    let c' = record c {
      writer = if origin_allowed allowed origin then allow_origin origin c.writer else c.writer;
    } in
    if str_eq r.method "OPTIONS"
    then record c' { writer = write_header 204 c'.writer }
    else next r c'

unfoldable pub reverse : {A : Type 0} → List A → List A
reverse [] = []
reverse (x ∷ xs) = reverse xs ++ x ∷ []

-- The loop of `Chain`, on the middleware from the last to the first.
unfoldable pub wrap_all : List Middleware → Handler → Handler
wrap_all [] final = final
wrap_all (m ∷ ms) final = wrap_all ms (m final)

-- `Chain(mws...)`
unfoldable pub chain : List Middleware → Middleware
chain mws final = wrap_all (reverse mws) final
