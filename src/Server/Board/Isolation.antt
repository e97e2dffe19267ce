-- ===== src/Server/Board/Isolation.antt =====
-- The abstract view with several users: for whom a call is made, and whose tasks it concerns.
use taskflow_api.Base.{
  ◌≡◌, ◌≢◌, ◌↔◌, inl, inr, Bool-cases, All, Option, none, some, List, eq_ℤ, eq_ℤ_iff,
}
use taskflow_api.Domain.{Task, Instant, Int64}
use taskflow_api.Store.{World}
use taskflow_api.Store.Quiet.{IsQuiet}
use taskflow_api.Repository.Consistency.{IsConsistent}
use taskflow_api.Server.{
  Deployment, Call, signs_up, logs_in, refreshes, logs_out, creates, lists, gets, updates, deletes,
  run,
}
use taskflow_api.Server.Ownership.{task_of}
use taskflow_api.Server.Board.{
  Board, board, SameTasks, Puts, Permits, session_up, session_in, session_next, session_out,
  created, not_created, listed, got, updated, not_updated, deleted, not_deleted, PermitsRun, done,
  next,
}
use taskflow_api.Server.Board.Refines.{run-PermitsRun}

-- The user that a call is made for.
abbrev pub caller : Call → Option Int64
caller (signs_up email password) = none
caller (logs_in email password) = none
caller (refreshes plaintext) = none
caller (logs_out plaintext) = none
caller (creates user_id title description due) = some user_id
caller (lists user_id status limit offset) = some user_id
caller (gets user_id id) = some user_id
caller (updates user_id id title description status due) = some user_id
caller (deletes user_id id) = some user_id

-- The tasks of a user are the same in two views.
abbrev pub Keeps : Int64 → Board → Board → Type 0
Keeps v b b' = (j : Int64) (k : Task) → k.user_id ≡ v → (b'.task j ≡ some k) ↔ (b.task j ≡ some k)

SameTasks-Keeps : (v : Int64) (b b' : Board) → SameTasks b b' → Keeps v b b'
SameTasks-Keeps v b b' same j k own = rw (same j) (λ h. h, λ h. h)

Puts-Keeps :
    (v id : Int64) (o : Option Task) (b b' : Board)
    → Puts id o b b'
    → ((k : Task) → o ≡ some k → k.user_id ≢ v)
    → ((k : Task) → b.task id ≡ some k → k.user_id ≢ v)
    → Keeps v b b'
Puts-Keeps v id o b b' puts new old j k own = elim (Bool-cases (eq_ℤ j id)) [
  | inl here ↦
      rw (puts j, here)
        (λ h. absurd (new k h own), λ h. absurd (old k (cc (h, (eq_ℤ_iff j id).0 here)) own))
  | inr there ↦ rw (puts j, there) (λ h. h, λ h. h)
]

others_task :
    (u v : Int64) (b : Board) (id : Int64) (k : Task)
    → b.task id ≡ some k
    → k.user_id ≡ u
    → some u ≢ some v
    → (l : Task) → b.task id ≡ some l
    → l.user_id ≢ v
others_task u v b id k found own foreign l at mine = foreign (cc (found, own, at, mine))

pub Permits-Keeps :
    (stored : Instant → Instant) (v : Int64) (b b' : Board) (c : Call)
    → Permits stored b b' c
    → caller c ≢ some v
    → Keeps v b b'
Permits-Keeps stored v b b' _ (session_up email password same) other = SameTasks-Keeps v b b' same
Permits-Keeps stored v b b' _ (session_in email password same) other = SameTasks-Keeps v b b' same
Permits-Keeps stored v b b' _ (session_next plaintext same) other = SameTasks-Keeps v b b' same
Permits-Keeps stored v b b' _ (session_out plaintext same) other = SameTasks-Keeps v b b' same
Permits-Keeps stored v b b' _ (created u title description due k known free own t e p at puts)
      other =
    Puts-Keeps v k.id (some k) b b' puts (λ l h mine. other (cc (h, own, mine)))
      (λ l h mine. absurd (cc (free, h)))
Permits-Keeps stored v b b' _ (not_created u title description due unknown same) other =
    SameTasks-Keeps v b b' same
Permits-Keeps stored v b b' _ (listed u status limit offset same) other =
    SameTasks-Keeps v b b' same
Permits-Keeps stored v b b' _ (got u id same) other = SameTasks-Keeps v b b' same
Permits-Keeps stored v b b' _ (updated u id title description status due now k found own fine puts)
      other =
    Puts-Keeps v id _ b b' puts (λ l h mine. other (cc (h, own, mine)))
      (others_task u v b id k found own other)
Permits-Keeps stored v b b' _ (not_updated u id title description status due why same) other =
    SameTasks-Keeps v b b' same
Permits-Keeps stored v b b' _ (deleted u id k found own puts) other =
    Puts-Keeps v id none b b' puts (λ l h mine. absurd (cc h))
      (others_task u v b id k found own other)
Permits-Keeps stored v b b' _ (not_deleted u id foreign same) other = SameTasks-Keeps v b b' same

PermitsRun-Keeps :
    (stored : Instant → Instant) (v : Int64) (cs : List Call) (b b' : Board)
    → PermitsRun stored cs b b'
    → All (λ c. caller c ≢ some v) cs
    → Keeps v b b'
PermitsRun-Keeps stored v _ b _ done others j k own = (λ h. h, λ h. h)
PermitsRun-Keeps stored v _ b b' (next {b' = m} {c = c} {cs = cs} p rest) (other, others) j k own =
    do
      let first = Permits-Keeps stored v b m c p other j k own
      let later = PermitsRun-Keeps stored v cs m b' rest others j k own
      (λ h. first.0 (later.0 h), λ h. later.1 (first.1 h))

-- Users are isolated: if every statement succeeds and the process is the database's only client, then
-- from consistent tables no run of calls that are made for others, and of calls of sign-up, log-in,
-- refresh and logout, changes, removes or adds a task of a user.
pub run-isolated :
    (d : Deployment) (cs : List Call) (w : World) (v j : Int64) (k : Task)
    → IsQuiet d.env
    → IsConsistent w.tables
    → All (λ c. caller c ≢ some v) cs
    → k.user_id ≡ v
    → (task_of j (run d cs w).tables.tasks ≡ some k) ↔ (task_of j w.tables.tasks ≡ some k)
run-isolated d cs w v j k q c others own =
    PermitsRun-Keeps d.env.stored v cs (board w.tables) (board (run d cs w).tables)
      (run-PermitsRun d cs w q c) others j k own
