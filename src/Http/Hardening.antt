-- ===== src/Http/Hardening.antt =====
-- internal/httpapi/middleware: security_headers.go, bodylimit.go and timeout.go.
use taskflow_api.Base.{ℕ, String, Option, none, some, List, [], ◌∷◌, ℤ}
use taskflow_api.Http.Answers.{
  Payload, text_body, Headers, Writer, set_header, write_header, write, Request, Conn, on_copy,
}
use taskflow_api.Http.Middleware.{Middleware}

unfoldable pub harden : Writer → Writer
harden w = set_header "Cross-Origin-Resource-Policy" "same-origin" (
    set_header "Referrer-Policy" "no-referrer"
      (set_header "X-Frame-Options" "DENY" (set_header "X-Content-Type-Options" "nosniff" w)))

-- `SecurityHeaders`
unfoldable pub security_headers : Middleware
security_headers next r c = next r (record c { writer = harden c.writer })

-- `MaxBodyBytes(max)`, with what a decoder sees of a body through `http.MaxBytesReader`.
unfoldable pub max_body_bytes : (ℤ → String → String) → ℤ → Middleware
max_body_bytes max_bytes_reader max next r = next (record r { body = max_bytes_reader max r.body })

-- How the wait of `http.TimeoutHandler` for a handler ends: the handler is done, the time is over,
-- or the client is gone.
pub data Ending : Type 0 where
  in_time too_late client_gone : Ending

abbrev pub timeout_body : Payload
timeout_body = text_body "{\"error\":\"request timed out\",\"code\":\"TIMEOUT\"}"

abbrev pub no_writer : Writer
no_writer = record { headers = []; sent = none; body = []; recorders = [] }

-- `for k, vv := range tw.h { dst[k] = vv }`
unfoldable pub copy_headers : Headers → Writer → Writer
copy_headers [] w = w
copy_headers ((name, value) ∷ hs) w = set_header name value (copy_headers hs w)

abbrev pub status_or_ok : Option (ℕ × Headers) → ℕ
status_or_ok none = 200
status_or_ok (some (status, hs)) = status

unfoldable pub write_all : List Payload → Writer → Writer
write_all [] w = w
write_all (p ∷ ps) w = write_all ps (write p w)

-- What the handler left in the buffer is sent: its headers, its status, its body.
unfoldable pub flush : Writer → Writer → Writer
flush buffer w =
    write_all buffer.body (write_header (status_or_ok buffer.sent) (copy_headers buffer.headers w))

-- The response of a handler that was waited for in vain, whose panic is dropped.
abbrev pub timed_out : Option Payload → Writer → Conn → Conn
timed_out none w done = record done { writer = write_header 503 w; panic = none }
timed_out (some p) w done = record done { writer = write p (write_header 503 w); panic = none }

-- A handler that is done: its panic goes on, with nothing sent, or its response is sent.
abbrev pub flushed : Option String → Writer → Conn → Conn
flushed (some p) w done = record done { writer = w }
flushed none w done = record done { writer = flush done.writer w }

abbrev pub ended : Ending → Writer → Conn → Conn
ended in_time w done = flushed done.panic w done
ended too_late w done = timed_out (some timeout_body) w done
ended client_gone w done = timed_out none w done

-- `Timeout(d)`: the handler runs on a copy of the request and writes into a buffer. It goes on when
-- it is not waited for any longer, with a context that is done.
unfoldable pub timeout : (Request → Conn → Ending) → Middleware
timeout ending next r c =
    ended (ending r c) c.writer (on_copy next r (record c { writer = no_writer }))
