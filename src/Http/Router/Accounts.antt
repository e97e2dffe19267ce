-- ===== src/Http/Router/Accounts.antt =====
-- What the router of internal/httpapi/router.go records of a request.
use taskflow_api.Base.{String, ◌≡◌, ap, ◌∙◌, some, [], ◌∷◌, ◌++◌}
use taskflow_api.Http.Answers.{AccessLine, level_error, Request, Conn, Handler, set_header}
use taskflow_api.Http.Gates.{chain_order}
use taskflow_api.Http.Middleware.{chain}
use taskflow_api.Http.Hardening.{status_or_ok}
use taskflow_api.Http.Observation.{id_or_new, request_id, with_id, level_of}
use taskflow_api.Http.Observation.Calm.{IsUnsent, IsCalm}
use taskflow_api.Http.Observation.Accounts.{Accounted, logging-chain-Accounted}
use taskflow_api.Http.Observation.Panics.{logging-chain-uncounted}
use taskflow_api.Http.Router.{Libraries, Deps, root, root_middleware, handler_chain}
use taskflow_api.Http.Router.Calm.{IsPolite, root-IsCalm}

-- The id of a request: the one that it came with, or a new one.
abbrev pub id_of : Deps → Request → Conn → String
id_of d r c = (id_or_new d.process.env (r.header "X-Request-ID") c.world).0

-- Every request is logged once and truthfully. If the handlers of libraries write one status, then
-- a request that reaches the router with nothing sent is answered without a panic, with one more
-- line in the access log, which has the request's method, path and id, the status that the client
-- sees, and a level that tells an error (from 500 on), a warning (from 400 on) or an information;
-- and the counter of requests is incremented once, at that status, or, if the status is 500,
-- perhaps not at all.
pub handler_chain-Accounted :
    (lib : Libraries) (d : Deps) (r : Request) (c : Conn)
    → IsPolite lib
    → IsUnsent c
    → Accounted (with_id d.tags (id_of d r c) r) c (handler_chain lib d r c)
unfolding handler_chain request_id set_header
handler_chain-Accounted lib d r c polite u =
    let b = record c {
      writer = set_header "X-Request-ID" (id_of d r c) c.writer;
      world = (id_or_new d.process.env (r.header "X-Request-ID") c.world).1;
    } in
    let a =
      logging-chain-Accounted (root lib d) (with_id d.tags (id_of d r c) r) b
        (root-IsCalm lib d polite)
        (record { unsent = u.unsent; truthful = u.truthful; running = u.running }) in
    rw (chain_order (root_middleware lib d) (root lib d)) (record {
      running = a.running;
      line = a.line;
      logged = a.logged;
      method = a.method;
      path = a.path;
      tags = a.tags;
      status = a.status;
      level = a.level;
      severity = a.severity;
      counted = a.counted;
    })

-- A panic is answered by 500 and logged as an error, but the counter of requests is not incremented.
-- This holds, if nothing was sent before, of every handler behind the middleware of the router that
-- panics with nothing sent and leaves the access log and the counter to the middleware.
pub panic_uncounted :
    (d : Deps) (lib : Libraries) (next : Handler) (r : Request) (c : Conn) (p : String)
    → IsUnsent c
    → IsCalm next
    → ((r : Request) (c : Conn) → (next r c).panic ≡ some p)
    → let c' = chain (root_middleware lib d) next r c in
      (status_or_ok c'.writer.sent ≡ 500)
      × (c'.requests_total ≡ c.requests_total)
      × (line : AccessLine) × (c'.access ≡ c.access ++ line ∷ [])
      × (line.level ≡ level_error)
unfolding request_id set_header level_of
panic_uncounted d lib next r c p u calm panics =
    let id = id_of d r c in
    let b = record c {
      writer = set_header "X-Request-ID" id c.writer;
      world = (id_or_new d.process.env (r.header "X-Request-ID") c.world).1;
    } in
    let fresh : IsUnsent b = record {
      unsent = u.unsent;
      truthful = u.truthful;
      running = u.running;
    } in
    let (told, same) = logging-chain-uncounted next (with_id d.tags id r) b p calm fresh panics in
    let a = logging-chain-Accounted next (with_id d.tags id r) b calm fresh in
    rw (chain_order (root_middleware lib d) next)
      (told, same, a.line, a.logged, a.level ∙ ap level_of (a.status ∙ told))
