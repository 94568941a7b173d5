-- ===== src/Store/Enqueued/Due.antt =====
-- FetchDueJobs: which jobs it returns, and in which order.
use mathlib.Core.List.{Perm}
use mathlib.Core.List.Perm
use go_fire.Base.{
  ℕ, ◌-◌, ◌*◌, ◌≤◌, ◌≡◌, refl, ap, true, List, [], ◌∷◌, map, Option, none, some, ok, arith, length,
  select, take, drop, All, ◌⊎◌,
}
use go_fire.Status.{JobStatus, queued, retrying}
use go_fire.Status.Laws.{is-iff-eq}
use go_fire.Base.Sort.{sort_by}
use go_fire.Store.Sql.{Time}
use go_fire.Base.Sort.Laws.{
  IsOrdered, take-IsOrdered, drop-IsOrdered, select-All, sort_by-All, sort_by-IsOrdered,
  sort_by-Perm, take-All, drop-All,
}
use go_fire.Store.Page.{PaginationResult, clamp_page, page_result}
use go_fire.Store.Enqueued.{Row, Store, EnqueuedJob, columns, is_due, collect, fetch_due_jobs}

-- Scan refuses no row that Next has reached.
pub collect_lem : (jobs : List EnqueuedJob) → collect jobs ≡ jobs
unfolding collect
collect_lem [] = refl
collect_lem (job ∷ jobs) = ap (λ js. job ∷ js) (collect_lem jobs)

-- The due rows, in the order of the query: rows of one time come in the order in which the database reads
-- them, `tie`.
abbrev pub due_rows : (Row → ℕ) → Time → List JobStatus → Option Time → Store → List Row
due_rows tie now statuses before s =
    sort_by (λ (r : Row). r.scheduled_at) (sort_by tie (select (is_due now statuses before) s.rows))

-- The jobs of one page, without the arithmetic of the page.
pub fetch_due_jobs_lem :
    (tie : Row → ℕ) (now : Time) (page size : ℕ) (statuses : List JobStatus) (before : Option Time)
    (s : Store)
    → fetch_due_jobs none tie now page size statuses before s
      ≡ ok (
          page_result
            (map columns (
              take size (drop ((clamp_page page - 1) * size) (due_rows tie now statuses before s))))
            (length (select (is_due now statuses before) s.rows))
            (clamp_page page)
            size)
unfolding fetch_due_jobs
fetch_due_jobs_lem tie now page size statuses before s =
    ap
      (λ js. ok (
        page_result js (length (select (is_due now statuses before) s.rows)) (clamp_page page)
          size))
      (collect_lem _)

-- What processDueJobs asks for, and what it gets.
abbrev pub IsReady : Time → EnqueuedJob → Type 0
IsReady now job = ((job.status ≡ queued) ⊎ (job.status ≡ retrying)) × (job.scheduled_at ≤ now)

abbrev pub work_statuses : List JobStatus
work_statuses = queued ∷ retrying ∷ []

is_due-IsReady :
    (now t : Time) (r : Row) → is_due now work_statuses (some t) r ≡ true → IsReady t (columns r)
unfolding is_due
is_due-IsReady now t r h = ground (arith, is-iff-eq r.status queued, is-iff-eq r.status retrying)

map-All {ℓ κ λ'} :
    {A : Type ℓ} {B : Type κ} (P : B → Type λ') (f : A → B) (xs : List A)
    → All (λ x. P (f x)) xs
    → All P (map f xs)
map-All P f [] h = tt
map-All P f (x ∷ xs) h = (h.0, map-All P f xs h.1)

-- Unless the database fails, FetchDueJobs as the worker loop calls it returns a page, and every job
-- on it is queued or retrying, and its time has come by the worker's clock; the page is in the order
-- of the scheduled times.
pub fetch_due_jobs-IsReady :
    (tie : Row → ℕ) (now t : Time) (page size : ℕ) (s : Store)
    → (result : PaginationResult EnqueuedJob) × (fetch_due_jobs none tie now page size work_statuses
          (some t)
          s
        ≡ ok result)
      × All (IsReady t) result.items
      × IsOrdered (λ job. job.scheduled_at) result.items
unfolding page_result
fetch_due_jobs-IsReady tie now t page size s =
    let rows = due_rows tie now work_statuses (some t) s in
    let k = (clamp_page page - 1) * size in
    (
      page_result (map columns (take size (drop k rows)))
          (length (select (is_due now work_statuses (some t)) s.rows)) (clamp_page page) size,
      fetch_due_jobs_lem tie now page size work_statuses (some t) s,
      map-All (IsReady t) columns (take size (drop k rows)) (
          take-All (λ r. IsReady t (columns r)) size (drop k rows)
            (drop-All (λ r. IsReady t (columns r)) k rows
              (sort_by-All (λ r. IsReady t (columns r)) (λ (r : Row). r.scheduled_at) _
                (sort_by-All (λ r. IsReady t (columns r)) tie _
                  (select-All (λ r. IsReady t (columns r)) _ (is_due-IsReady now t) s.rows))))),
      map-IsOrdered (take size (drop k rows)) (
          take-IsOrdered (λ (r : Row). r.scheduled_at) size (drop k rows)
            (drop-IsOrdered (λ (r : Row). r.scheduled_at) k rows (sort_by-IsOrdered _ _))),
    )
  where
    map-IsOrdered :
        (rows : List Row)
        → IsOrdered (λ (r : Row). r.scheduled_at) rows
        → IsOrdered (λ (job : EnqueuedJob). job.scheduled_at) (map columns rows)
    map-IsOrdered [] h = tt
    map-IsOrdered (r ∷ rows) h = (
      map-All (λ job. r.scheduled_at ≤ job.scheduled_at) columns rows h.0,
      map-IsOrdered rows h.1,
    )

-- The due rows in the order of the table.
abbrev pub due : Time → List JobStatus → Option Time → Store → List Row
due now statuses before s = select (is_due now statuses before) s.rows

-- The due jobs are the rows that pass the test of the query, each once, rearranged.
pub due_rows-Perm :
    (tie : Row → ℕ) (now : Time) (statuses : List JobStatus) (before : Option Time) (s : Store)
    → Perm (due_rows tie now statuses before s) (select (is_due now statuses before) s.rows)
due_rows-Perm tie now statuses before s = Perm.trans (sort_by-Perm _ _) (sort_by-Perm tie _)
