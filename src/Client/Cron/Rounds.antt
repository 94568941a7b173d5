-- ===== src/Client/Cron/Rounds.antt =====
-- A round of the cron worker, processCronJobs (client/cron_job_manager.go): it locks the jobs of each
-- page and turns the pages, which are asked for anew, until one announces no next. The context is not
-- cancelled, so that the semaphore lets every job pass in the end; what the result processor stores while
-- the loop waits for it is not modelled here.
use go_fire.Base.{
  ℕ, zero, suc, ◌+◌, ◌*◌, ◌≤◌, ◌<◌, ◌≡◌, refl, ap, ◌∙◌, Bool, true, false, List, [], ◌∷◌, ◌++◌,
  Option, none, some, String, Error, Result, ok, err, arith, Bool-cases, inl, inr, length, select,
  Option-cases, ◌⊎◌, ltb, ltb→lt,
}
use go_fire.Store.Sql.{Time, update_where, limit_offset}
use go_fire.Store.Page.{PaginationResult, clamp_page, offset_of, ceil_div, page_result}
use go_fire.Store.Enqueued.Paging.{less-ceil_div}
use go_fire.Base.Sort.{sort_by}
use go_fire.Store.CronJobs.{
  collect, nulls_first, Row, Store, CronJob, is_due, fetch_due_cron_jobs, lockable, take_lock,
  lock_job,
}

-- The instance, the size of a page, and for each page the database's clock and failures: at the
-- fetch, and at the lock of a job.
pub record Round : Type 0 where
  pub by : String
  pub batch_size : ℕ
  pub clock : ℕ → Time
  pub fetch_fault : ℕ → Option Error
  pub lock_fault : ℕ → CronJob → Option Error

-- The table, and the jobs that have been started.
abbrev pub State : Type 0
State = Store × List CronJob

-- `if err != nil || !ok { continue }`.
abbrev pub after_lock : CronJob → List CronJob → Store × Result Bool → State
after_lock job started (s, ok true) = (s, started ++ job ∷ [])
after_lock job started (s, ok false) = (s, started)
after_lock job started (s, err e) = (s, started)

unfoldable pub start_jobs : Round → ℕ → List CronJob → State → State
unfolding lock_job
start_jobs round page [] st = st
start_jobs round page (job ∷ jobs) (s, started) = start_jobs round page jobs (
    after_lock job started
      (lock_job (round.lock_fault page job) (round.clock page) job.id round.by s))

abbrev pub fetch : Round → ℕ → Store → Result (PaginationResult CronJob)
unfolding fetch_due_cron_jobs
fetch round page s =
    fetch_due_cron_jobs (round.fetch_fault page) (round.clock page) page round.batch_size s

-- The loop from a page on, with fuel for the pages; none where the fuel does not suffice.
unfoldable pub turn_pages : ℕ → Round → ℕ → State → Option State
unfolding start_jobs
turn_pages zero round page st = none
turn_pages (suc fuel) round page st = elim (fetch round page st.0) [
  | err e ↦ some st
  | ok result ↦
      let st' = start_jobs round page result.items st in
      elim result.has_next_page [ true ↦ turn_pages fuel round (suc page) st' | false ↦ some st' ]
]

-- The fuel: no more pages than rows, and one.
unfoldable pub process_cron_jobs : Round → Store → Option State
unfolding turn_pages
process_cron_jobs round s = turn_pages (suc (length s.rows)) round 1 (s, [])

length-update_where :
    {A : Type 0} (p : A → Bool) (f : A → A) (xs : List A) → length (update_where p f xs) ≡ length xs
unfolding update_where
length-update_where p f [] = refl
length-update_where p f (x ∷ xs) = ap suc (length-update_where p f xs)

lock_job-length :
    (fault : Option Error) (now : Time) (id : ℕ) (by : String) (s : Store)
    → length (lock_job fault now id by s).0.rows ≡ length s.rows
unfolding lock_job
lock_job-length (some e) now id by s = refl
lock_job-length none now id by s = length-update_where (lockable id) (take_lock now by) s.rows

after_lock-table :
    (job : CronJob) (started : List CronJob) (x : Store × Result Bool)
    → (after_lock job started x).0 ≡ x.0
after_lock-table job started (s, ok true) = refl
after_lock-table job started (s, ok false) = refl
after_lock-table job started (s, err e) = refl

start_jobs-length :
    (round : Round) (page : ℕ) (jobs : List CronJob) (st : State)
    → length (start_jobs round page jobs st).0.rows ≡ length st.0.rows
unfolding start_jobs
start_jobs-length round page [] st = refl
start_jobs-length round page (job ∷ jobs) (s, started) =
    let x = lock_job (round.lock_fault page job) (round.clock page) job.id round.by s in
    start_jobs-length round page jobs (after_lock job started x)
    ∙ ap (λ (t : Store). length t.rows) (after_lock-table job started x)
    ∙ lock_job-length (round.lock_fault page job) (round.clock page) job.id round.by s

length-select : {A : Type 0} (p : A → Bool) (xs : List A) → length (select p xs) ≤ length xs
length-select p [] = omega arith
length-select p (x ∷ xs) = let rest = length-select p xs in ground (arith, rest)

le-times : (p k : ℕ) → 0 < k → p ≤ p * k
le-times zero k h = omega arith
le-times (suc p) k h = let rest = le-times p k h in omega arith

due : Round → ℕ → Store → List Row
due round page s = select (is_due (round.clock page)) s.rows

page_items : Round → ℕ → Store → List CronJob
page_items round page s = collect (
    limit_offset round.batch_size (offset_of (clamp_page page) round.batch_size)
      (sort_by (λ (r : Row). nulls_first r.next_run_at) (due round page s)))

fetch-lem :
    (round : Round) (page : ℕ) (s : Store)
    → ((e : Error) × (fetch round page s ≡ err e))
      ⊎ (fetch round page s
          ≡ ok (
              page_result
                (page_items round page s)
                (length (due round page s))
                (clamp_page page)
                round.batch_size))
unfolding fetch_due_cron_jobs due page_items
fetch-lem round page s = elim (Option-cases (round.fetch_fault page)) [
  | inr (e, fails) ↦ inl (e, rw (fails, fetch_due_cron_jobs) refl)
  | inl works ↦ inr (rw (works, fetch_due_cron_jobs) refl)
]

-- A page that announces a next one has a number below the number of rows.
next-lt :
    (round : Round) (page : ℕ) (s : Store) (items : List CronJob)
    → 0 < round.batch_size
    → 1 ≤ page
    → (page_result items
        (length (due round page s))
        (clamp_page page)
        round.batch_size).has_next_page
      ≡ true
    → page < length s.rows
unfolding page_result clamp_page due
next-lt round page s items pos first next =
    let found = length (select (is_due (round.clock page)) s.rows) in
    let clamped : clamp_page page ≡ page = ground arith in
    let next' : ltb page (ceil_div found round.batch_size) ≡ true = rw clamped at next in
    let ahead = (less-ceil_div page found round.batch_size pos).0 (ltb→lt page _ next') in
    let short = length-select (is_due (round.clock page)) s.rows in
    let size = le-times page round.batch_size pos in omega arith

-- One page, for the pages behind it.
turn_page-returns :
    (fuel : ℕ) (round : Round) (page : ℕ) (st : State)
    → 0 < round.batch_size
    → 1 ≤ page
    → (page < length st.0.rows
        → (st₁ : State) → length st₁.0.rows ≡ length st.0.rows
        → (st' : State) × (turn_pages fuel round (suc page) st₁ ≡ some st'))
    → (st' : State) × (turn_pages (suc fuel) round page st ≡ some st')
unfolding turn_pages page_result
turn_page-returns fuel round page st pos first more = elim (fetch-lem round page st.0) [
  | inl (e, fails) ↦ (st, rw (turn_pages, fails) refl)
  | inr found ↦
      let items = page_items round page st.0 in
      let total = length (due round page st.0) in
      let result = page_result items total (clamp_page page) round.batch_size in
      elim (Bool-cases result.has_next_page) [
        | inr last ↦ (start_jobs round page items st, rw (turn_pages, found, last) refl)
        | inl next ↦
            let lt = next-lt round page st.0 items pos first next in
            let st₁ = start_jobs round page items st in
            let same' = start_jobs-length round page items st in
            let (st', done) = more lt st₁ same' in (st', rw (turn_pages, found, next) done)
      ]
]

turn_pages-returns :
    (fuel : ℕ) (round : Round) (page : ℕ) (st : State)
    → 0 < round.batch_size
    → 1 ≤ page
    → length st.0.rows < fuel + page
    → (st' : State) × (turn_pages (suc fuel) round page st ≡ some st')
turn_pages-returns zero round page st pos first enough =
    turn_page-returns zero round page st pos first (λ lt st₁ e. absurd (omega arith))
turn_pages-returns (suc fuel) round page st pos first enough =
    turn_page-returns (suc fuel) round page st pos first
      (λ lt st₁ e. turn_pages-returns fuel round (suc page) st₁ pos (omega arith) (omega arith))

-- A round of the cron worker comes to its end: however the database fails and its clock runs, with a
-- positive size of the pages, processCronJobs turns at most one page more than the table has rows, also
-- though the jobs that it locks may leave the pages that are still to come.
pub process_cron_jobs-returns :
    (round : Round) (s : Store)
    → 0 < round.batch_size
    → (st : State) × (process_cron_jobs round s ≡ some st)
unfolding process_cron_jobs
process_cron_jobs-returns round s pos =
    turn_pages-returns (length s.rows) round 1 (s, []) pos (omega arith) (omega arith)
