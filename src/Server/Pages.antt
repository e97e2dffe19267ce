-- ===== src/Server/Pages.antt =====
-- Pages of tasks: the bounds that TaskService.List applies, and what ListByUser answers to them.
mod Orders
pub use Orders.{NewestFirst, IsOrdering}
use taskflow_api.Base.{
  ℕ, zero, suc, ◌-◌, ◌≤◌, String, ◌≡◌, refl, sym, ap, ◌∙◌, ◌↔◌, ◌⊎◌, Bool, true, false, Option,
  none, List, [], ◌∷◌, ◌++◌, arith, str_eq_iff, length, take, drop, length-take, length-drop, All,
  All-take, All-drop, Bool-cases, inl, inr, ℤ, pos, negsuc, pos_part, ◌≤ℤ◌, ltb_ℤ, eq_ℤ_iff,
}
use taskflow_api.Domain.{Task, Int64, TaskStatus}
use taskflow_api.Domain.Errors.{ok}
use taskflow_api.Sql.{select_rows, count_rows}
use taskflow_api.Store.{Tables, Env, World, ◌>>=◌, map_err}
use Prim.Native.Nat.{min}
use mathlib.Core.List.{append-nil, append_assoc}
use taskflow_api.Sql.Rows.{select_rows-where, length-select_rows}
use taskflow_api.Store.Quiet.{IsQuiet, exec_quiet}
use Orders.{NewestFirst-take, NewestFirst-drop, length-order, All-order}
use taskflow_api.Repository.Tasks as Rows
use taskflow_api.Repository.Tasks.{
  listed, count_tasks, page_tasks, scan_rows, query_page, scan_page,
}
use taskflow_api.Service.Tasks
use taskflow_api.Service.Tasks.{TaskService, Page, effective_limit, effective_offset}
use taskflow_api.Server.{Deployment, task_service}

-- The limit is between 1 and 100 and the offset at least 0, whatever was asked. A limit in the
-- range is kept, one of at most 0 becomes 20, and one above 100 becomes 100; an offset of at least
-- 0 is kept, and a negative one becomes 0.
pub effective_bounds :
    (limit offset : ℤ)
    → (pos 1 ≤ℤ effective_limit limit)
      × (effective_limit limit ≤ℤ pos 100)
      × (pos 0 ≤ℤ effective_offset offset)
      × ((effective_limit limit ≡ limit)
          ⊎ ((limit ≤ℤ pos 0) × (effective_limit limit ≡ pos 20))
          ⊎ ((pos 101 ≤ℤ limit) × (effective_limit limit ≡ pos 100)))
      × ((effective_offset offset ≡ offset)
          ⊎ ((offset ≤ℤ negsuc 0) × (effective_offset offset ≡ pos 0)))
unfolding effective_limit effective_offset
effective_bounds limit offset =
    (ground arith, ground arith, ground arith, ground arith, ground arith)

-- The loop reads every row if no scan fails.
scan_rows-all :
    (scan : ℕ → Option String) (i : ℕ) (rows tasks : List Task)
    → ((j : ℕ) → scan j ≡ none)
    → scan_rows scan none i rows tasks ≡ ok (tasks ++ rows)
unfolding scan_rows
scan_rows-all scan i [] tasks clean = ap ok (sym (append-nil tasks))
scan_rows-all scan i (k ∷ rows) tasks clean =
    rw (scan_rows, clean i)
      (scan_rows-all scan (suc i) rows (tasks ++ k ∷ []) clean
        ∙ ap ok (append_assoc tasks (k ∷ []) rows))

-- The page that the two queries give.
abbrev pub page_of : Env → Int64 → TaskStatus → ℤ → ℤ → World → Page
page_of env user_id status limit offset w = record {
  tasks = take (pos_part (effective_limit limit)) (
      drop (pos_part (effective_offset offset))
        (env.order (suc w.step) (select_rows (listed user_id status) w.tables.tasks)));
  total = count_rows (listed user_id status) w.tables.tasks;
  limit = effective_limit limit;
  offset = effective_offset offset;
}

effective_nonneg :
    (limit offset : ℤ)
    → (ltb_ℤ (effective_limit limit) (pos 0) ≡ false)
      × (ltb_ℤ (effective_offset offset) (pos 0) ≡ false)
unfolding effective_limit effective_offset
effective_nonneg limit offset = (ground arith, ground arith)

pub list_quiet :
    (d : Deployment) (user_id : Int64) (status : TaskStatus) (limit offset : ℤ) (w : World)
    → IsQuiet d.env
    → Tasks.list (task_service d) user_id status limit offset w ≡ (
      ok (page_of d.env user_id status limit offset w),
      record { tables = w.tables; step = suc (suc w.step) },
    )
unfolding Tasks.list Rows.list_by_user query_page scan_page map_err ◌>>=◌ count_tasks page_tasks
list_quiet d user_id status limit offset w q =
    let (lim, off) = effective_nonneg limit offset in
    rw (
      exec_quiet d.env q,
      exec_quiet d.env q,
      lim,
      off,
      q.iterating _,
      scan_rows-all (d.env.scan_fault (suc (suc w.step))) 0
          (page_of d.env user_id status limit offset w).tasks [] (q.scanning (suc (suc w.step))),
    )

-- The clause of the two queries: the owner, and the status unless it is "".
listed_iff :
    (user_id : Int64) (status : TaskStatus) (k : Task)
    → (listed user_id status k ≡ true)
      ↔ ((k.user_id ≡ user_id) × ((status ≡ "") ⊎ (k.status ≡ status)))
unfolding listed
listed_iff user_id status k =
    ground (arith, eq_ℤ_iff k.user_id user_id, str_eq_iff status "", str_eq_iff k.status status)

-- What List asks of a row: the owner, and the status if one was asked for.
abbrev pub Matches : Int64 → TaskStatus → Task → Type 0
Matches user_id status k = (k.user_id ≡ user_id) × ((status ≡ "") ⊎ (k.status ≡ status))

-- The second list is what is left of the first when the rows without the property are left out.
pub data Selects (P : Task → Type 0) : List Task → List Task → Type 0 where
  nil : Selects P [] []
  keep : {k : Task} {ks ls : List Task} → P k → Selects P ks ls → Selects P (k ∷ ks) (k ∷ ls)
  skip : {k : Task} {ks ls : List Task} → ¬ P k → Selects P ks ls → Selects P (k ∷ ks) ls

select_rows-Selects :
    (user_id : Int64) (status : TaskStatus) (ks : List Task)
    → Selects (Matches user_id status) ks (select_rows (listed user_id status) ks)
unfolding select_rows
select_rows-Selects user_id status [] = nil
select_rows-Selects user_id status (k ∷ ks) =
    let (sound, complete) = listed_iff user_id status k in
    elim (Bool-cases (listed user_id status k)) [
      | inl e ↦ rw e (keep (sound e) (select_rows-Selects user_id status ks))
      | inr e ↦ rw e (skip (λ h. cc (complete h)) (select_rows-Selects user_id status ks))
    ]

-- What the clause asks of a row, said of each row of a list.
All-listed :
    (user_id : Int64) (status : TaskStatus) (ks : List Task)
    → All (λ k. listed user_id status k ≡ true) ks
    → All (Matches user_id status) ks
All-listed user_id status [] a = tt
All-listed user_id status (k ∷ ks) (h, a) =
    ((listed_iff user_id status k).0 h, All-listed user_id status ks a)

-- What a page of a user's tasks is, for the tables and the bounds that were asked for.
pub record IsPage (user_id : Int64) (status : TaskStatus) (limit offset : ℤ) (t : Tables) (p : Page)
    : Type 0 where
  -- The effective bounds.
  pub bounds : (p.limit ≡ effective_limit limit) × (p.offset ≡ effective_offset offset)
  -- All the matching tasks, and the same rows in the order of the answer.
  pub matching : List Task
  pub ordered : List Task
  pub selects : Selects (Matches user_id status) t.tasks matching
  pub same_rows : (q : Task → Bool) → count_rows q ordered ≡ count_rows q matching
  pub sorted : NewestFirst ordered
  -- The page is the part of them that the bounds name.
  pub cut : p.tasks ≡ take (pos_part p.limit) (drop (pos_part p.offset) ordered)
  -- The total counts the matching tasks on all pages.
  pub total : p.total ≡ length matching
  -- So the page has tasks of this user only, and of the status if one was asked for,
  pub listed_only : All (Matches user_id status) p.tasks
  pub newest_first : NewestFirst p.tasks
  -- and is as long as the limit and the offset allow.
  pub size : length p.tasks ≡ min (pos_part p.limit) (p.total - pos_part p.offset)

-- List answers a page. With the database to itself, whatever limit and offset are asked for, it
-- succeeds and changes no table. Let the matching tasks be those of the table that are the user's,
-- and have the status if one is given: the total is their number, and the page is what the effective
-- limit and offset cut out of them in an order with the newest first.
pub list-IsPage :
    (d : Deployment) (user_id : Int64) (status : TaskStatus) (limit offset : ℤ) (w : World)
    → IsQuiet d.env
    → IsOrdering d.env.order
    → (p : Page) × (Tasks.list (task_service d) user_id status limit offset w
        ≡ (ok p, record { tables = w.tables; step = suc (suc w.step) }))
      × IsPage user_id status limit offset w.tables p
list-IsPage d user_id status limit offset w q o =
    let wanted = listed user_id status in
    let rows = select_rows wanted w.tables.tasks in
    let ordered = d.env.order (suc w.step) rows in
    let off = pos_part (effective_offset offset) in
    let lim = pos_part (effective_limit limit) in
    (
      page_of d.env user_id status limit offset w,
      list_quiet d user_id status limit offset w q,
      record {
        bounds = (refl, refl);
        matching = rows;
        ordered = ordered;
        selects = select_rows-Selects user_id status w.tables.tasks;
        same_rows = λ p. o.same_rows p (suc w.step) rows;
        sorted = o.newest_first (suc w.step) rows;
        cut = refl;
        listed_only = All-listed user_id status _ (
            All-take (λ k. wanted k ≡ true) lim (drop off ordered)
              (All-drop (λ k. wanted k ≡ true) off ordered
                (All-order d.env.order o wanted (suc w.step) rows
                  (select_rows-where wanted w.tables.tasks))));
        newest_first =
            NewestFirst-take lim (drop off ordered)
              (NewestFirst-drop off ordered (o.newest_first (suc w.step) rows));
        total = sym (length-select_rows wanted w.tables.tasks);
        size = omega (
          arith,
          length-take lim (drop off ordered),
          length-drop off ordered,
          length-order d.env.order o (suc w.step) rows,
          length-select_rows wanted w.tables.tasks,
        );
      },
    )
