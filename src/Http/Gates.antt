-- ===== src/Http/Gates.antt =====
-- What passes the middleware of internal/httpapi/middleware, and in which order.
use taskflow_api.Base.{
  String, ◌≡◌, refl, ◌∙◌, ap, ◌⊎◌, inl, inr, some, List, [], ◌∷◌, ◌++◌, Option-cases,
}
use taskflow_api.Domain.{Int64}
use taskflow_api.Domain.Errors.{Result-cases, ok}
use taskflow_api.Store.{World, ◌>>=◌, map_err, time_now}
use taskflow_api.Service.Tokens.{validate, key_for}
use taskflow_api.Server.{Deployment, tokens}
use taskflow_api.Http.Answers.{Request, Conn, Handler, on_copy, respond_error}
use taskflow_api.Http.Middleware.{Middleware, with_user_id, bearer, auth, reverse, wrap_all, chain}

-- The handler that the middleware makes when each one wraps what follows it in the list.
abbrev pub nested : List Middleware → Handler → Handler
nested [] final = final
nested (m ∷ ms) final = m (nested ms final)

wrap_all-append :
    (ms : List Middleware) (m : Middleware) (final : Handler)
    → wrap_all (ms ++ m ∷ []) final ≡ m (wrap_all ms final)
unfolding wrap_all
wrap_all-append [] m final = refl
wrap_all-append (n ∷ ms) m final = wrap_all-append ms m (n final)

-- The loop of Chain, which goes from the last middleware to the first, makes the first one of the
-- list the outermost, as the list reads from top to bottom.
pub chain_order : (ms : List Middleware) (final : Handler) → chain ms final ≡ nested ms final
unfolding chain reverse wrap_all
chain_order [] final = refl
chain_order (m ∷ ms) final = wrap_all-append (reverse ms) m final ∙ ap m (chain_order ms final)

pub validate_tables :
    (d : Deployment) (token : String) (w : World)
    → (validate d.env d.jwt (tokens d) token w).1.tables ≡ w.tables
unfolding validate ◌>>=◌ map_err time_now
validate_tables d token w =
    elim (Result-cases
      (d.jwt.parse_with_claims (d.env.app_now w.step) token (key_for d.jwt_secret))) [
        | inl (parsed, h) ↦ rw h
        | inr (e, h) ↦ rw h
      ]

-- The request went on to the next handler, as the user whom its token names.
pub record Admitted (d : Deployment) (next : Handler) (r : Request) (c : Conn) : Type 0 where
  pub token : String
  pub user_id : Int64
  pub presented : bearer (r.header "Authorization") ≡ some token
  pub accepted : (validate d.env d.jwt (tokens d) token c.world).0 ≡ ok user_id
  pub goes_on :
      auth d next r c
      ≡ on_copy next
          (with_user_id user_id r)
          (record c { world = (validate d.env d.jwt (tokens d) token c.world).1 })

-- The request was answered by 401, without the next handler and with no table changed.
pub record Rejected (d : Deployment) (next : Handler) (r : Request) (c : Conn) : Type 0 where
  pub message : String
  pub world : World
  pub answered :
      auth d next r c ≡ respond_error r 401 "UNAUTHORIZED" message (record c { world = world })
  pub untouched : world.tables ≡ c.world.tables

-- Authentication guards the handler behind it: either the request has a bearer token that Validate
-- accepts, and the handler runs as the user of that token, or the request is answered by 401, and
-- the handler does not run.
pub auth_gate :
    (d : Deployment) (next : Handler) (r : Request) (c : Conn)
    → Admitted d next r c ⊎ Rejected d next r c
unfolding auth
auth_gate d next r c = elim (Option-cases (bearer (r.header "Authorization"))) [
  | inl missing ↦ inr (record {
    message = "missing or malformed Authorization header";
    world = c.world;
    answered = rw missing refl;
    untouched = refl;
  })
  | inr (token, found) ↦ elim (Result-cases (validate d.env d.jwt (tokens d) token c.world).0) [
    | inl (user_id, accepted) ↦ inl (record {
      token = token;
      user_id = user_id;
      presented = found;
      accepted = accepted;
      goes_on = rw (found, accepted);
    })
    | inr (e, refused) ↦ inr (record {
      message = "invalid or expired token";
      world = (validate d.env d.jwt (tokens d) token c.world).1;
      answered = rw (found, refused);
      untouched = validate_tables d token c.world;
    })
  ]
]
