-- ===== src/Http/Router/Refusals/Outer.antt =====
-- The middleware of every request in internal/httpapi/router.go: a request without a valid token.
use taskflow_api.Base.{String, ◌≡◌, refl, ◌∙◌, inl, inr, Bool-cases, Option, some, none, str_eq}
use taskflow_api.Store.{Tables, World, rand_read}
use taskflow_api.Http.Answers.{Recorder, set_header, Request, Conn, Handler}
use taskflow_api.Http.Hardening.{status_or_ok, security_headers, harden}
use taskflow_api.Http.Gates.{chain_order}
use taskflow_api.Http.Mux.{path_segments}
use taskflow_api.Http.Observation.{
  recorded, logging, metrics, recover, request_id, id_or_new, generate_request_id, unless_panic,
  recovered, push_recorder, pop_recorder, recorder_of, log_access, count_request, with_id,
}
use taskflow_api.Http.Router.{Libraries, Deps, root, handler_chain, root_middleware}
use taskflow_api.Http.Router.Refusals.{IsRefusal, IsBarred, Refused, LimitsOnly, Refuses}
use taskflow_api.Http.Router.Refusals.Inner.{root-Refuses}

module _ (d : Deps) (t : Tables) where
  unless_panic-Refused :
      (o : Option String) (after : Conn → Conn) (c : Conn)
      → ((c : Conn) → Refused t c → Refused t (after c))
      → Refused t c
      → c.panic ≡ o
      → Refused t (unless_panic o after c)
  unless_panic-Refused none after c keeps f e = keeps c f
  unless_panic-Refused (some p) after c keeps f e = f

  recorded-Refuses :
      (after : Request → Recorder → Conn → Conn) (next : Handler)
      → ((r : Request) (rec : Recorder) (c : Conn) → Refused t c → Refused t (after r rec c))
      → Refuses d t next
      → Refuses d t (recorded after next)
  unfolding recorded
  recorded-Refuses after next keeps refuses r c b s = do
    let c' = next r (record c { writer = push_recorder c.writer })
    let f =
        refuses r (record c { writer = push_recorder c.writer }) b
          (record { unsent = s.unsent; running = s.running; tables = s.tables })
    unless_panic-Refused c'.panic (after r (recorder_of c'.writer.recorders))
        (record c' { writer = pop_recorder c'.writer }) (keeps r (recorder_of c'.writer.recorders))
        (record { refusal = f.refusal; running = f.running; tables = f.tables }) refl

  logging-Refuses : (next : Handler) → Refuses d t next → Refuses d t (logging next)
  unfolding logging
  logging-Refuses next =
      recorded-Refuses log_access next
        (λ r rec c f. record { refusal = f.refusal; running = f.running; tables = f.tables })

  metrics-Refuses : (next : Handler) → Refuses d t next → Refuses d t (metrics next)
  unfolding metrics
  metrics-Refuses next =
      recorded-Refuses count_request next
        (λ r rec c f. record { refusal = f.refusal; running = f.running; tables = f.tables })

  recovered-Refused :
      (o : Option String) (r : Request) (c : Conn)
      → Refused t c
      → c.panic ≡ o
      → Refused t (recovered o r c)
  recovered-Refused none r c f e = f
  recovered-Refused (some p) r c f e = absurd (cc (f.running, e))

  recover-Refuses : (next : Handler) → Refuses d t next → Refuses d t (recover next)
  unfolding recover
  recover-Refuses next refuses r c b s =
      recovered-Refused (next r c).panic r (next r c) (refuses r c b s) refl

  security_headers-Refuses :
      (next : Handler) → Refuses d t next → Refuses d t (security_headers next)
  unfolding security_headers harden set_header
  security_headers-Refuses next refuses r c b s =
      refuses r (record c { writer = harden c.writer }) b
        (record { unsent = s.unsent; running = s.running; tables = s.tables })

  pub id_or_new-tables :
      (id : String) (w : World) → (id_or_new d.process.env id w).1.tables ≡ w.tables
  unfolding id_or_new generate_request_id rand_read
  id_or_new-tables id w = elim (Bool-cases (str_eq id "")) [ inl e ↦ rw e refl | inr e ↦ rw e refl ]

  request_id-Refuses :
      (next : Handler) → Refuses d t next → Refuses d t (request_id d.process.env d.tags next)
  unfolding request_id set_header path_segments
  request_id-Refuses next refuses r c b s = do
    let p = id_or_new d.process.env (r.header "X-Request-ID") c.world
    let f =
        refuses (with_id d.tags p.0 r)
          (record c { writer = set_header "X-Request-ID" p.0 c.writer; world = p.1 })
          (record {
            rest = b.rest;
            path = b.path;
            clean = b.clean;
            preflight = b.preflight;
            nobody = b.nobody;
          })
          (record {
            unsent = s.unsent;
            running = s.running;
            tables = id_or_new-tables (r.header "X-Request-ID") c.world ∙ s.tables;
          })
    record { refusal = f.refusal; running = f.running; tables = f.tables }

-- No task is served without a valid token. Through all the middleware of the router, a request for
-- a path of the tasks or below it that `cleanPath` leaves as it is, of whatever method but OPTIONS,
-- whose bearer token Validate accepts at no time, gets 401, or 429 from the rate limiter, or 503
-- from the time-out, and no table is changed. This is so if nothing was sent before and nothing
-- panicked, whatever the backends of the limiter and the wait of the time-out say, as long as the
-- backends touch no table.
pub handler_chain-Refused :
    (lib : Libraries) (d : Deps) (r : Request) (c : Conn)
    → LimitsOnly d
    → IsBarred d r
    → c.writer.sent ≡ none
    → c.panic ≡ none
    → IsRefusal (status_or_ok (handler_chain lib d r c).writer.sent)
      × ((handler_chain lib d r c).world.tables ≡ c.world.tables)
unfolding handler_chain
handler_chain-Refused lib d r c only b unsent running = do
  let t = c.world.tables
  let f =
      request_id-Refuses d t _
        (logging-Refuses d t _ (
          recover-Refuses d t _
            (metrics-Refuses d t _ (security_headers-Refuses d t _ (root-Refuses d t lib only)))))
        r c b (record { unsent = unsent; running = running; tables = refl })
  rw (chain_order (root_middleware lib d) (root lib d)) (f.refusal, f.tables)
