-- ===== src/Http/Observation/Accounts.antt =====
-- What Logging, Recover and Metrics of internal/httpapi/middleware record of a response.
use taskflow_api.Base.{
  ℕ, suc, ◌≤◌, ◌<◌, arith, String, ◌≡◌, refl, ◌∙◌, ◌⊎◌, inl, inr, Option, none, some, Option-cases,
  List, [], ◌∷◌, ◌++◌, All, length,
}
use taskflow_api.Http.Answers.{
  Level, level_error, level_warn, level_info, Recorder, AccessLine, Sample, Request, Conn, Handler,
  error_body, Payload, set_header, respond, respond_error,
}
use taskflow_api.Http.Hardening.{status_or_ok, harden, security_headers}
use taskflow_api.Http.Observation.{
  push_recorder, recorder_of, without_recorder, recorded, level_of, access_line, logging, route_of,
  metrics, recovered, recover,
}
use taskflow_api.Http.Observation.Calm.{IsTruthful, IsUnsent, IsCalm, respond-Calm, respond-Sends}

popped :
    (s n : ℕ) (recs : List Recorder)
    → length recs ≡ suc n
    → All (λ rec. rec.status ≡ s) recs
    → (length (without_recorder recs) ≡ n)
      × All (λ rec. rec.status ≡ s) (without_recorder recs)
      × ((recorder_of recs).status ≡ s)
popped s n [] h a = absurd (omega arith)
popped s n (rec ∷ recs) h (first, rest) = (omega arith, rest, first)

pub pushed-IsUnsent :
    (c : Conn) → IsUnsent c → IsUnsent (record c { writer = push_recorder c.writer })
pushed-IsUnsent c u = record {
  unsent = u.unsent;
  truthful = (rw u.unsent refl, u.truthful);
  running = u.running;
}

-- One sample was counted, with the status that the client sees, or none, after a panic.
abbrev pub Counted : Request → Conn → Conn → Type 0
Counted r c c' =
    (sample : Sample) × (c'.requests_total ≡ c.requests_total ++ sample ∷ [])
    × (sample.method ≡ r.method)
    × (sample.status ≡ status_or_ok c'.writer.sent)

pub record Metered (r : Request) (c c' : Conn) : Type 0 where
  pub access : c'.access ≡ c.access
  pub depth : length c'.writer.recorders ≡ length c.writer.recorders
  pub truthful : IsTruthful c'.writer
  pub outcome :
      ((c'.panic ≡ none) × Counted r c c')
      ⊎ ((p : String) × (c'.panic ≡ some p)
          × (c'.writer.sent ≡ none)
          × (c'.requests_total ≡ c.requests_total))

pub metrics-Metered :
    (next : Handler) (r : Request) (c : Conn)
    → IsCalm next
    → IsUnsent c
    → Metered r c (metrics next r c)
unfolding metrics recorded
metrics-Metered next r c calm u = do
  let c' = next r (record c { writer = push_recorder c.writer })
  let k = calm r (record c { writer = push_recorder c.writer }) (pushed-IsUnsent c u)
  let (depth, truthful, status) =
      popped (status_or_ok c'.writer.sent) (length c.writer.recorders) c'.writer.recorders k.depth
        k.truthful
  elim (Option-cases c'.panic) [
    | inl running ↦ rw running (record {
      access = k.access;
      depth = depth;
      truthful = truthful;
      outcome = inl (
        refl,
        (
          record {
            method = r.method;
            route = route_of c'.pattern;
            status = (recorder_of c'.writer.recorders).status;
          },
          rw k.counted refl,
          refl,
          status,
        ),
      );
    })
    | inr (p, panicked) ↦ rw panicked (record {
      access = k.access;
      depth = depth;
      truthful = truthful;
      outcome = inr (p, refl, k.panics_unsent p panicked, k.counted);
    })
  ]

-- After Recover: one sample was counted with the status that the client sees, or none, and 500 was
-- sent.
pub record Settled (r : Request) (c c' : Conn) : Type 0 where
  pub access : c'.access ≡ c.access
  pub depth : length c'.writer.recorders ≡ length c.writer.recorders
  pub truthful : IsTruthful c'.writer
  pub running : c'.panic ≡ none
  pub outcome :
      Counted r c c'
      ⊎ ((status_or_ok c'.writer.sent ≡ 500) × (c'.requests_total ≡ c.requests_total))

-- What Recover answers.
abbrev pub internal : Request → Option Payload
internal r = some (
    error_body (record {
      error = "internal server error";
      code = "INTERNAL_ERROR";
      request_id = r.request_id;
    }))

panicked-Settled :
    (r : Request) (c before : Conn) (p : String)
    → before.access ≡ c.access
    → length before.writer.recorders ≡ length c.writer.recorders
    → IsTruthful before.writer
    → before.writer.sent ≡ none
    → before.requests_total ≡ c.requests_total
    → Settled r c (recovered (some p) r before)
unfolding respond_error respond
panicked-Settled r c before p access depth truthful unsent uncounted = do
  let resumed = record before { panic = none; log = before.log ++ ("panic recovered", p) ∷ [] }
  let u : IsUnsent resumed = record { unsent = unsent; truthful = truthful; running = refl }
  let k = respond-Calm 500 (internal r) resumed u
  let s = respond-Sends 500 (internal r) resumed unsent
  record {
    access = k.access ∙ access;
    depth = k.depth ∙ depth;
    truthful = k.truthful;
    running = refl;
    outcome = inr (s.shown, k.counted ∙ uncounted);
  }

recovered-some :
    (r : Request) (c before : Conn) (o : Option String) (p : String)
    → o ≡ some p
    → Settled r c (recovered (some p) r before)
    → Settled r c (recovered o r before)
recovered-some r c before o p e s = rw e s

pub recover-Settled :
    (next : Handler) (r : Request) (c : Conn)
    → Metered r c (next r c)
    → Settled r c (recover next r c)
unfolding recover
recover-Settled next r c m = elim m.outcome [
  | inl (running, counted) ↦ rw running (record {
    access = m.access;
    depth = m.depth;
    truthful = m.truthful;
    running = refl;
    outcome = inl counted;
  })
  | inr (p, panicked, unsent, uncounted) ↦
      recovered-some r c (next r c) (next r c).panic p panicked
        (panicked-Settled r c (next r c) p m.access m.depth m.truthful unsent uncounted)
]

pub security_headers-IsCalm : (next : Handler) → IsCalm next → IsCalm (security_headers next)
unfolding security_headers harden set_header
security_headers-IsCalm next calm r c u = do
  let k =
      calm r (record c { writer = harden c.writer })
        (record { unsent = u.unsent; truthful = u.truthful; running = u.running })
  record {
    access = k.access;
    counted = k.counted;
    depth = k.depth;
    truthful = k.truthful;
    panics_unsent = k.panics_unsent;
  }

-- An error for a status of 500 or more, a warning for one from 400 on, and otherwise an information.
abbrev pub Levelled : ℕ → Level → Type 0
Levelled status level =
    ((500 ≤ status) × (level ≡ level_error))
    ⊎ ((400 ≤ status) × (status < 500) × (level ≡ level_warn))
    ⊎ ((status < 400) × (level ≡ level_info))

level_of-Levelled : (status : ℕ) → Levelled status (level_of status)
unfolding level_of
level_of-Levelled status = ground arith

-- One line of the access log tells the method, the path and the status of the response, at the
-- level of its status; and the counter was incremented once at that status, or the response is 500.
pub record Accounted (r : Request) (c c' : Conn) : Type 0 where
  pub running : c'.panic ≡ none
  pub line : AccessLine
  pub logged : c'.access ≡ c.access ++ line ∷ []
  pub method : line.method ≡ r.method
  pub path : line.path ≡ r.path
  pub tags : line.tags ≡ r.tags
  pub status : line.status ≡ status_or_ok c'.writer.sent
  pub level : line.level ≡ level_of line.status
  pub severity : Levelled line.status line.level
  pub counted :
      Counted r c c'
      ⊎ ((status_or_ok c'.writer.sent ≡ 500) × (c'.requests_total ≡ c.requests_total))

logging-Accounted :
    (next : Handler) (r : Request) (c : Conn)
    → ((c : Conn) → IsUnsent c → Settled r c (next r c))
    → IsUnsent c
    → Accounted r c (logging next r c)
unfolding logging recorded access_line
logging-Accounted next r c settles u = do
  let c' = next r (record c { writer = push_recorder c.writer })
  let k = settles (record c { writer = push_recorder c.writer }) (pushed-IsUnsent c u)
  let (depth, truthful, status) =
      popped (status_or_ok c'.writer.sent) (length c.writer.recorders) c'.writer.recorders k.depth
        k.truthful
  rw k.running (record {
    running = refl;
    line = access_line r (recorder_of c'.writer.recorders);
    logged = rw k.access refl;
    method = refl;
    path = refl;
    tags = refl;
    status = status;
    level = refl;
    severity = level_of-Levelled (recorder_of c'.writer.recorders).status;
    counted = k.outcome;
  })

-- The middleware from Logging inwards accounts for a response.
pub logging-chain-Accounted :
    (next : Handler) (r : Request) (c : Conn)
    → IsCalm next
    → IsUnsent c
    → Accounted r c (logging (recover (metrics (security_headers next))) r c)
logging-chain-Accounted next r c calm u =
    logging-Accounted (recover (metrics (security_headers next))) r c
      (λ c u.
        recover-Settled (metrics (security_headers next)) r c
          (metrics-Metered (security_headers next) r c (security_headers-IsCalm next calm) u))
      u
