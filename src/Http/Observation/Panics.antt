-- ===== src/Http/Observation/Panics.antt =====
-- What is left of a panic that Recover of internal/httpapi/middleware/recover.go answers.
use taskflow_api.Base.{String, ◌≡◌, refl, inl, inr, Option, none, some}
use taskflow_api.Http.Answers.{Request, Conn, Handler, respond, respond_error}
use taskflow_api.Http.Hardening.{status_or_ok, security_headers}
use taskflow_api.Http.Observation.{push_recorder, recorded, logging, metrics, recovered, recover}
use taskflow_api.Http.Observation.Calm.{IsTruthful, IsUnsent, IsCalm, respond-Sends}
use taskflow_api.Http.Observation.Accounts.{
  Metered, internal, metrics-Metered, recover-Settled, pushed-IsUnsent, security_headers-IsCalm,
}

-- What the client and the counter see of a panic that Recover has answered.
record IsUncounted (c c' : Conn) : Type 0 where
  status : status_or_ok c'.writer.sent ≡ 500
  counted : c'.requests_total ≡ c.requests_total

panicked-IsUncounted :
    (r : Request) (c before : Conn) (o : Option String) (p : String)
    → o ≡ some p
    → IsTruthful before.writer
    → before.writer.sent ≡ none
    → before.requests_total ≡ c.requests_total
    → IsUncounted c (recovered o r before)
unfolding respond_error respond
panicked-IsUncounted r c before none p e truthful unsent same = cc e
panicked-IsUncounted r c before (some q) p e truthful unsent same = record {
  status = (respond-Sends 500 (internal r) before unsent).shown;
  counted = same;
}

recover-IsUncounted :
    (next : Handler) (r : Request) (c : Conn) (p : String)
    → Metered r c (next r c)
    → (next r c).panic ≡ some p
    → IsUncounted c (recover next r c)
unfolding recover
recover-IsUncounted next r c p m panicked = elim m.outcome [
  | inl (running, counted) ↦ absurd (cc (running, panicked))
  | inr (q, again, unsent, same) ↦
      panicked-IsUncounted r c (next r c) (next r c).panic p panicked m.truthful unsent same
]

logging-IsUncounted :
    (next : Handler) (r : Request) (c : Conn)
    → (next r (record c { writer = push_recorder c.writer })).panic ≡ none
    → IsUncounted c (next r (record c { writer = push_recorder c.writer }))
    → IsUncounted c (logging next r c)
unfolding logging recorded
logging-IsUncounted next r c running k =
    rw running (record { status = k.status; counted = k.counted })

metrics-panic :
    (next : Handler) (r : Request) (c : Conn) (p : String)
    → (next r (record c { writer = push_recorder c.writer })).panic ≡ some p
    → (metrics next r c).panic ≡ some p
unfolding metrics recorded
metrics-panic next r c p panicked = rw panicked refl

-- A handler that panics with nothing sent is told to the client as 500, and not counted.
pub logging-chain-uncounted :
    (next : Handler) (r : Request) (c : Conn) (p : String)
    → IsCalm next
    → IsUnsent c
    → ((r : Request) (c : Conn) → (next r c).panic ≡ some p)
    → let c' = logging (recover (metrics (security_headers next))) r c in
      (status_or_ok c'.writer.sent ≡ 500) × (c'.requests_total ≡ c.requests_total)
unfolding security_headers
logging-chain-uncounted next r c p calm u panics = do
  let pushed = record c { writer = push_recorder c.writer }
  let m =
      metrics-Metered (security_headers next) r pushed (security_headers-IsCalm next calm)
        (pushed-IsUnsent c u)
  let panicked = metrics-panic (security_headers next) r pushed p (panics r _)
  let settled = recover-Settled (metrics (security_headers next)) r pushed m
  let k = recover-IsUncounted (metrics (security_headers next)) r pushed p m panicked
  let l =
      logging-IsUncounted (recover (metrics (security_headers next))) r c settled.running
        (record { status = k.status; counted = k.counted })
  (l.status, l.counted)
