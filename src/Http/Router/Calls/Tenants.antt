-- ===== src/Http/Router/Calls/Tenants.antt =====
-- Sequences of requests to internal/httpapi/router.go, and the tasks of one user.
use taskflow_api.Base.{◌≡◌, ◌≢◌, ◌↔◌, sym, inl, inr, All, some, none, List, [], ◌∷◌}
use taskflow_api.Domain.{Task, Int64}
use taskflow_api.Store.{Tables, World}
use taskflow_api.Store.Quiet.{IsQuiet}
use taskflow_api.Repository.Consistency.{IsConsistent}
use taskflow_api.Server.{Deployment, Call, perform, run}
use taskflow_api.Server.Runs.{run-IsConsistent}
use taskflow_api.Server.Ownership.{task_of}
use taskflow_api.Server.Board.{board}
use taskflow_api.Server.Board.Refines.{perform-Permits, alone-IsConsistent}
use taskflow_api.Server.Board.Isolation.{caller, Keeps, Permits-Keeps}
use taskflow_api.Http.Answers.{Request, Conn}
use taskflow_api.Http.Hardening.{no_writer}
use taskflow_api.Http.Replies.Calls.{Act, idles, acts}
use taskflow_api.Http.Router.{Libraries, Deps, handler_chain}
use taskflow_api.Http.Router.Refusals.{LimitsOnly}
use taskflow_api.Http.Router.Calls.{Presents, IsFor}
use taskflow_api.Http.Router.Calls.Whole.{LeavesTables, handler_chain-Makes}

-- What a request starts with.
abbrev pub begun_conn : World → Conn
begun_conn w = record {
  writer = no_writer;
  world = w;
  log = [];
  access = [];
  requests_total = [];
  pattern = "";
  panic = none;
}

-- The world after the requests, one after the other.
unfoldable pub serve_all : Libraries → Deps → List Request → World → World
serve_all lib d [] w = w
serve_all lib d (r ∷ rs) w = serve_all lib d rs (handler_chain lib d r (begun_conn w)).world

others_call :
    (p : Deployment) (r : Request) (v : Int64) (x : Call)
    → IsFor p r x
    → ¬ Presents p r v
    → caller x ≢ some v
others_call p r v x (inl free) barred e = absurd (cc (free, e))
others_call p r v x (inr (u, e, (token, w, presented, accepted))) barred f =
    barred (token, w, presented, cc (accepted, e, f))

Act-Keeps :
    (p : Deployment) (r : Request) (v : Int64) (t u : Tables)
    → IsQuiet p.env
    → IsConsistent t
    → ¬ Presents p r v
    → Act p (IsFor p r) t u
    → Keeps v (board t) (board u) × IsConsistent u
unfolding run
Act-Keeps p r v t u q c barred (idles h) = rw h ((λ j k own. (λ e. e, λ e. e)), c)
Act-Keeps p r v t u q c barred (acts x w fits e g) = do
  let before : IsConsistent w.tables = rw e c
  rw (g, sym e)
      (
        Permits-Keeps p.env.stored v (board w.tables) (board (perform p x w).tables) x
            (perform-Permits p q x w before) (others_call p r v x fits barred),
        run-IsConsistent p (x ∷ []) w (alone-IsConsistent p q) before,
      )

-- Users are isolated through the whole API. If every statement succeeds, the process is the
-- database's only client, the tables are consistent, and neither the handlers of libraries nor the
-- backends of the rate limiter write a table, then no sequence of requests, whatever their paths,
-- methods, headers and bodies, changes, removes or adds a task of a user, as long as none of them
-- presents a bearer token that Validate accepts as that user's.
pub tenants_isolated :
    (lib : Libraries) (d : Deps) (rs : List Request) (w : World) (v j : Int64) (k : Task)
    → IsQuiet d.process.env
    → LeavesTables lib
    → LimitsOnly d
    → IsConsistent w.tables
    → All (λ r. ¬ Presents d.process r v) rs
    → k.user_id ≡ v
    → (task_of j (serve_all lib d rs w).tables.tasks ≡ some k) ↔ (task_of j w.tables.tasks ≡ some k)
unfolding serve_all
tenants_isolated lib d [] w v j k q leaves only c barred own = (λ e. e, λ e. e)
tenants_isolated lib d (r ∷ rs) w v j k q leaves only c (first, rest) own = do
  let w' = (handler_chain lib d r (begun_conn w)).world
  let (keeps, c') =
      Act-Keeps d.process r v w.tables w'.tables q c first
        (handler_chain-Makes lib d leaves only r (begun_conn w))
  let later = tenants_isolated lib d rs w' v j k q leaves only c' rest own
  let now = keeps j k own
  (λ e. now.0 (later.0 e), λ e. later.1 (now.1 e))
