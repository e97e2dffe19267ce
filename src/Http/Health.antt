-- ===== src/Http/Health.antt =====
-- internal/httpapi/handler/health_handler.go
use taskflow_api.Base.{String, Option, none, some, Bool, true, false, [], ◌∷◌}
use taskflow_api.Domain.Errors.{Error}
use taskflow_api.Http.Answers.{Handler, Conn, fields_body, respond}

-- `Health(version)`
unfoldable pub health : String → Handler
health version r = respond 200 (some (fields_body (("status", "ok") ∷ ("version", version) ∷ [])))

-- The end of `Ready`, with the error of the database's ping within its two seconds.
abbrev pub pinged : String → Option Error → Conn → Conn
pinged version (some e) = respond 503 (
    some (
      fields_body (
        ("status", "unavailable") ∷ ("error", "database unreachable") ∷ ("version", version) ∷ [])))
pinged version none =
    respond 200 (some (fields_body (("status", "ready") ∷ ("version", version) ∷ [])))

-- `Ready(db, version, draining)`: `draining` is nil, or a flag that was read, and `ping` is what a
-- ping would say. A flag that is set keeps the ping from being sent.
unfoldable pub ready : Option Error → String → Option Bool → Handler
ready ping version (some true) r =
    respond 503 (some (fields_body (("status", "draining") ∷ ("version", version) ∷ [])))
ready ping version (some false) r = pinged version ping
ready ping version none r = pinged version ping
