-- ===== src/Http/Observation/Calm.antt =====
-- Handlers and middleware of internal/httpapi that write one status, and leave the access log and
-- the metrics to Logging and Metrics.
use taskflow_api.Base.{
  ℕ, String, ◌≡◌, refl, ap, ◌∙◌, Option, none, some, List, [], ◌∷◌, map, All, length,
}
use taskflow_api.Http.Answers.{
  Payload, Headers, Recorder, Writer, note_status, note_write, set_header, write_header, write,
  Request, Conn, Handler, respond,
}
use taskflow_api.Http.Hardening.{
  Ending, in_time, too_late, client_gone, status_or_ok, no_writer, timeout_body, copy_headers,
  write_all, flush, flushed, ended, timeout,
}
use taskflow_api.Http.Replies.Steps.{Reply}

-- Every recorder shows the status that the client sees, which is 200 if none was sent.
abbrev pub IsTruthful : Writer → Type 0
IsTruthful w = All (λ rec. rec.status ≡ status_or_ok w.sent) w.recorders

-- Before anything is written.
pub record IsUnsent (c : Conn) : Type 0 where
  pub unsent : c.writer.sent ≡ none
  pub truthful : IsTruthful c.writer
  pub running : c.panic ≡ none

-- A step that leaves the logs of requests alone, keeps the recorders truthful, and panics only with
-- nothing sent.
pub record Calm (c c' : Conn) : Type 0 where
  pub access : c'.access ≡ c.access
  pub counted : c'.requests_total ≡ c.requests_total
  pub depth : length c'.writer.recorders ≡ length c.writer.recorders
  pub truthful : IsTruthful c'.writer
  pub panics_unsent : (p : String) → c'.panic ≡ some p → c'.writer.sent ≡ none

abbrev pub IsCalm : Handler → Type 0
IsCalm h = (r : Request) (c : Conn) → IsUnsent c → Calm c (h r c)

-- A handler that leaves the logs of requests alone, whatever it writes.
abbrev pub IsSilent : Handler → Type 0
IsSilent h =
    (r : Request) (c : Conn)
    → ((h r c).access ≡ c.access) × ((h r c).requests_total ≡ c.requests_total)

All-note_status :
    (s : ℕ) (recs : List Recorder) → All (λ rec. rec.status ≡ s) (map (note_status s) recs)
All-note_status s [] = tt
All-note_status s (rec ∷ recs) = (refl, All-note_status s recs)

All-note_write :
    (s : ℕ) (p : Payload) (recs : List Recorder)
    → All (λ rec. rec.status ≡ s) recs
    → All (λ rec. rec.status ≡ s) (map (note_write p) recs)
All-note_write s p [] a = tt
All-note_write s p (rec ∷ recs) (first, rest) = (first, All-note_write s p recs rest)

pub length-map :
    (f : Recorder → Recorder) (recs : List Recorder) → length (map f recs) ≡ length recs
length-map f [] = refl
length-map f (rec ∷ recs) = rw (length-map f recs)

-- What a writer has become by sending one status, and writing after it.
pub record Sends (status : ℕ) (w w' : Writer) : Type 0 where
  pub shown : status_or_ok w'.sent ≡ status
  pub truthful : IsTruthful w'
  pub depth : length w'.recorders ≡ length w.recorders

pub write_header-Sends :
    (status : ℕ) (w : Writer) → w.sent ≡ none → Sends status w (write_header status w)
unfolding write_header
write_header-Sends status w unsent = rw unsent (record {
  shown = refl;
  truthful = All-note_status status w.recorders;
  depth = length-map (note_status status) w.recorders;
})

pub write-Sends :
    (status : ℕ) (p : Payload) (w w' : Writer) → Sends status w w' → Sends status w (write p w')
unfolding write
write-Sends status p w w' s = record {
  shown = s.shown;
  truthful = All-note_write (status_or_ok w'.sent) p w'.recorders s.truthful;
  depth = length-map (note_write p) w'.recorders ∙ s.depth;
}

-- The headers of the writer before do not matter.
pub reheaded :
    (status : ℕ) (w v w' : Writer)
    → v.recorders ≡ w.recorders
    → Sends status v w'
    → Sends status w w'
reheaded status w v w' same s = record {
  shown = s.shown;
  truthful = s.truthful;
  depth = s.depth ∙ ap length same;
}

-- A calm step after one that touches neither the logs of requests nor the recorders.
pub after-Calm :
    (c b c' : Conn)
    → b.access ≡ c.access
    → b.requests_total ≡ c.requests_total
    → b.writer.recorders ≡ c.writer.recorders
    → Calm b c'
    → Calm c c'
after-Calm c b c' access counted same k = record {
  access = k.access ∙ access;
  counted = k.counted ∙ counted;
  depth = k.depth ∙ ap length same;
  truthful = k.truthful;
  panics_unsent = k.panics_unsent;
}

pub Sends-Calm :
    (status : ℕ) (c c' : Conn)
    → c'.access ≡ c.access
    → c'.requests_total ≡ c.requests_total
    → c'.panic ≡ none
    → Sends status c.writer c'.writer
    → Calm c c'
Sends-Calm status c c' access counted running s = record {
  access = access;
  counted = counted;
  depth = s.depth;
  truthful = s.truthful;
  panics_unsent = λ p h. absurd (cc (h, running));
}

-- Handlers that answer by one response are calm.
pub respond-Sends :
    (status : ℕ) (payload : Option Payload) (c : Conn)
    → c.writer.sent ≡ none
    → Sends status c.writer (respond status payload c).writer
unfolding respond set_header
respond-Sends status none c unsent =
    reheaded status c.writer _ _ refl (write_header-Sends status _ unsent)
respond-Sends status (some p) c unsent =
    reheaded status c.writer _ _ refl
      (write-Sends status p _ _ (write_header-Sends status _ unsent))

pub respond-Calm :
    (status : ℕ) (payload : Option Payload) (c : Conn)
    → IsUnsent c
    → Calm c (respond status payload c)
unfolding respond
respond-Calm status payload c u =
    Sends-Calm status c _ refl refl u.running (respond-Sends status payload c u.unsent)

pub Reply-Calm : (c answered : Conn) → Reply c answered → IsUnsent c → Calm c answered
unfolding respond
Reply-Calm c answered r u = rw r.same (
    Sends-Calm r.status c (respond r.status r.payload (record c { world = r.world; log = r.log }))
      refl refl u.running (respond-Sends r.status r.payload c u.unsent))

pub Reply-silent :
    (c answered : Conn)
    → Reply c answered
    → (answered.access ≡ c.access) × (answered.requests_total ≡ c.requests_total)
unfolding respond
Reply-silent c answered r = rw r.same (refl, refl)

-- The buffer of a time-out sends one status, whatever the handler wrote into it.
copy_headers-sent :
    (hs : Headers) (w : Writer)
    → ((copy_headers hs w).sent ≡ w.sent) × ((copy_headers hs w).recorders ≡ w.recorders)
unfolding copy_headers set_header
copy_headers-sent [] w = (refl, refl)
copy_headers-sent ((name, value) ∷ hs) w = copy_headers-sent hs w

write_all-Sends :
    (status : ℕ) (ps : List Payload) (w w' : Writer)
    → Sends status w w'
    → Sends status w (write_all ps w')
unfolding write_all
write_all-Sends status [] w w' s = s
write_all-Sends status (p ∷ ps) w w' s =
    write_all-Sends status ps w (write p w') (write-Sends status p w w' s)

pub flush-Sends :
    (buffer w : Writer) → w.sent ≡ none → Sends (status_or_ok buffer.sent) w (flush buffer w)
unfolding flush
flush-Sends buffer w unsent =
    let (sent, recorders) = copy_headers-sent buffer.headers w in
    let status = status_or_ok buffer.sent in
    write_all-Sends status buffer.body w _ (
      reheaded status w _ _ recorders
        (write_header-Sends status (copy_headers buffer.headers w) (sent ∙ unsent)))

flushed-Calm :
    (o : Option String) (c done : Conn)
    → IsUnsent c
    → done.panic ≡ o
    → done.access ≡ c.access
    → done.requests_total ≡ c.requests_total
    → Calm c (flushed o c.writer done)
flushed-Calm none c done u running access counted =
    Sends-Calm (status_or_ok done.writer.sent) c _ access counted running
      (flush-Sends done.writer c.writer u.unsent)
flushed-Calm (some p) c done u panicked access counted = record {
  access = access;
  counted = counted;
  depth = refl;
  truthful = u.truthful;
  panics_unsent = λ q h. u.unsent;
}

ended-Calm :
    (e : Ending) (c done : Conn)
    → IsUnsent c
    → done.access ≡ c.access
    → done.requests_total ≡ c.requests_total
    → Calm c (ended e c.writer done)
ended-Calm in_time c done u access counted = flushed-Calm done.panic c done u refl access counted
ended-Calm too_late c done u access counted =
    Sends-Calm 503 c _ access counted refl
      (write-Sends 503 timeout_body _ _ (write_header-Sends 503 c.writer u.unsent))
ended-Calm client_gone c done u access counted =
    Sends-Calm 503 c _ access counted refl (write_header-Sends 503 c.writer u.unsent)

-- A handler behind a time-out is calm, whatever it writes and whether or not it panics.
pub timeout-IsCalm :
    (ending : Request → Conn → Ending) (next : Handler)
    → IsSilent next
    → IsCalm (timeout ending next)
unfolding timeout
timeout-IsCalm ending next silent r c u =
    let (access, counted) = silent r (record c { writer = no_writer }) in
    ended-Calm (ending r c) c _ u access counted
