-- ===== src/Client/Enqueued/Held.antt =====
-- What a round of the worker (client/enqueue_job_manager.go, processDueJobs) holds of the jobs that it has
-- started, while others call the store.
use go_fire.Base.{
  ℕ, suc, zero, ◌-◌, ◌*◌, ◌≡◌, ◌≢◌, refl, sym, subst, Bool, true, false, List, [], ◌∷◌, map, none,
  some, String, Result, ok, err, arith, ◌==◌, All, Bool-cases, inl, inr, ◌⊎◌, take, drop, Option,
  Error,
}
use go_fire.Base.Sort.Laws.{take-All}
use go_fire.Store.Enqueued.{Row, Store, EnqueuedJob, columns, lock_job}
use go_fire.Store.Enqueued.Ops.{run_all, IsWellFormed, run_all-IsWellFormed}
use go_fire.Store.Enqueued.Locking.{IsHeld, KeepsLock, lock_job-IsHeld, run_all-IsHeld}
use go_fire.Store.Enqueued.Due.{work_statuses, fetch_due_jobs_lem}
use go_fire.Store.Page.{PaginationResult, clamp_page, page_result}
use go_fire.Client.Enqueued.{Lap, Round, got, start_jobs, start_page, process_due_jobs}
use go_fire.Client.Enqueued.Rounds.{lock_job-IsWellFormed, lock_job-keeps}
use go_fire.Client.Enqueued.Waiting.{AreDistinctRows, waiting-AreDistinct}

got-true : (outcome : Result Bool) → got outcome ≡ true → outcome ≡ ok true
got-true (ok true) h = refl
got-true (ok false) h = absurd (ground arith)
got-true (err e) h = absurd (ground arith)

abbrev pub AreDistinct : List EnqueuedJob → Type 0
AreDistinct [] = Unit
AreDistinct (job ∷ jobs) = All (λ other. job.id ≢ other.id) jobs × AreDistinct jobs

module _ (laps : EnqueuedJob → Lap) (by : String) where
  -- The calls that are made during the laps do not end the processing of the job.
  abbrev AllKeep : ℕ → Type 0
  AllKeep id = (job : EnqueuedJob) → All (KeepsLock id) (laps job).meanwhile

  start_jobs-keeps :
      (id : ℕ) (by' : String) (jobs : List EnqueuedJob) (s : Store)
      → AllKeep id
      → IsHeld id by' s
      → IsHeld id by' (start_jobs laps by jobs s).0
  unfolding start_jobs
  start_jobs-keeps id by' [] s keep h = h
  start_jobs-keeps id by' (job ∷ jobs) s keep h =
      let lap = laps job in
      let locked = lock_job lap.fault lap.now job.id by s in
      let now =
        run_all-IsHeld lap.meanwhile id by' locked.0 (keep job)
          (lock_job-keeps lap.fault lap.now job.id id by by' s h) in
      let rest = start_jobs-keeps id by' jobs (run_all lap.meanwhile locked.0) keep now in
      elim (Bool-cases (got locked.1)) [
        | inl yes' ↦ elim (Bool-cases lap.is_cancelled) [
          | inl ends ↦ rw (yes', ends) now
          | inr goes ↦ rw (yes', goes) rest
        ]
        | inr no' ↦ rw no' rest
      ]

  start_jobs-IsHeld :
      (id : ℕ) (jobs : List EnqueuedJob) (s : Store)
      → AllKeep id
      → IsWellFormed s
      → All
          (λ job. (job.id ≢ id) ⊎ IsHeld id by (start_jobs laps by jobs s).0)
          (start_jobs laps by jobs s).1
  unfolding start_jobs
  start_jobs-IsHeld id [] s keep h = tt
  start_jobs-IsHeld id (job ∷ jobs) s keep h =
      let lap = laps job in
      let locked = lock_job lap.fault lap.now job.id by s in
      let s' = run_all lap.meanwhile locked.0 in
      let wf' =
        run_all-IsWellFormed lap.meanwhile locked.0
          (lock_job-IsWellFormed lap.fault lap.now job.id by s h) in
      let rest = start_jobs-IsHeld id jobs s' keep wf' in
      elim (Bool-cases (got locked.1)) [
        | inl yes' ↦ elim (Bool-cases lap.is_cancelled) [
          | inl ends ↦ rw (yes', ends) tt
          | inr goes ↦
              let own = lock_job-IsHeld lap.fault lap.now job.id by s h (got-true locked.1 yes') in
              let here : (job.id ≢ id) ⊎ IsHeld id by (start_jobs laps by jobs s').0 =
                elim (Bool-cases (job.id == id)) [
                  | inl same ↦ inr (
                      start_jobs-keeps id by jobs s' keep (
                        run_all-IsHeld lap.meanwhile id by locked.0 (keep job)
                          (subst (λ i. IsHeld i by locked.0) (ground arith) own)))
                  | inr other ↦ inl (λ e. absurd (ground arith))
                ] in
              rw (yes', goes) (here, rest)
        ]
        | inr no' ↦ rw no' rest
      ]

  start_jobs-All :
      (P : EnqueuedJob → Type 0) (jobs : List EnqueuedJob) (s : Store)
      → All P jobs
      → All P (start_jobs laps by jobs s).1
  unfolding start_jobs
  start_jobs-All P [] s h = tt
  start_jobs-All P (job ∷ jobs) s h =
      let lap = laps job in
      let locked = lock_job lap.fault lap.now job.id by s in
      let rest = start_jobs-All P jobs (run_all lap.meanwhile locked.0) h.1 in
      elim (Bool-cases (got locked.1)) [
        | inl yes' ↦ elim (Bool-cases lap.is_cancelled) [
          | inl ends ↦ rw (yes', ends) tt
          | inr goes ↦ rw (yes', goes) (h.0, rest)
        ]
        | inr no' ↦ rw no' rest
      ]

  start_jobs-AreDistinct :
      (jobs : List EnqueuedJob) (s : Store)
      → AreDistinct jobs
      → AreDistinct (start_jobs laps by jobs s).1
  unfolding start_jobs
  start_jobs-AreDistinct [] s h = tt
  start_jobs-AreDistinct (job ∷ jobs) s h =
      let lap = laps job in
      let locked = lock_job lap.fault lap.now job.id by s in
      let s' = run_all lap.meanwhile locked.0 in
      let rest = start_jobs-AreDistinct jobs s' h.1 in
      elim (Bool-cases (got locked.1)) [
        | inl yes' ↦ elim (Bool-cases lap.is_cancelled) [
          | inl ends ↦ rw (yes', ends) tt
          | inr goes ↦
              rw (yes', goes) (start_jobs-All (λ other. job.id ≢ other.id) jobs s' h.0, rest)
        ]
        | inr no' ↦ rw no' rest
      ]

take-AreDistinct : (n : ℕ) (rows : List Row) → AreDistinctRows rows → AreDistinctRows (take n rows)
take-AreDistinct zero rows h = tt
take-AreDistinct (suc n) [] h = tt
take-AreDistinct (suc n) (r ∷ rows) h =
    (take-All (λ (x : Row). r.id ≢ x.id) n rows h.0, take-AreDistinct n rows h.1)

drop-AreDistinct : (n : ℕ) (rows : List Row) → AreDistinctRows rows → AreDistinctRows (drop n rows)
drop-AreDistinct zero rows h = h
drop-AreDistinct (suc n) [] h = tt
drop-AreDistinct (suc n) (r ∷ rows) h = drop-AreDistinct n rows h.1

columns-AreDistinct : (rows : List Row) → AreDistinctRows rows → AreDistinct (map columns rows)
columns-AreDistinct [] h = tt
columns-AreDistinct (r ∷ rows) h = (go rows h.0, columns-AreDistinct rows h.1)
  where
    go :
        (rows : List Row)
        → All (λ (x : Row). r.id ≢ x.id) rows
        → All (λ (job : EnqueuedJob). r.id ≢ job.id) (map columns rows)
    go [] h = tt
    go (x ∷ rows) h = (h.0, go rows h.1)

start_page-AreDistinct :
    (r : Round) (fault : Option Error) (size : ℕ) (by : String) (s s' : Store)
    → IsWellFormed s
    → AreDistinct
        (start_page r.laps by
          (go_fire.Store.Enqueued.fetch_due_jobs fault r.tie r.db_now 1 size work_statuses
            (some r.now)
            s)
          s').1
unfolding start_page page_result go_fire.Store.Enqueued.fetch_due_jobs
start_page-AreDistinct r (some e) size by s s' h = tt
start_page-AreDistinct r none size by s s' h =
    subst (λ page. AreDistinct (start_page r.laps by page s').1)
      (sym (fetch_due_jobs_lem r.tie r.db_now 1 size work_statuses (some r.now) s))
      (start_jobs-AreDistinct r.laps by _ s' (
        columns-AreDistinct _ (
          take-AreDistinct size _ (
            drop-AreDistinct ((clamp_page 1 - 1) * size) _
              (waiting-AreDistinct r.tie r.db_now r.now s h)))))

start_page-IsHeld :
    (laps : EnqueuedJob → Lap) (by : String) (id : ℕ) (page : Result (PaginationResult EnqueuedJob))
    (s : Store)
    → ((job : EnqueuedJob) → All (KeepsLock id) (laps job).meanwhile)
    → IsWellFormed s
    → All
        (λ job. (job.id ≢ id) ⊎ IsHeld id by (start_page laps by page s).0)
        (start_page laps by page s).1
unfolding start_page
start_page-IsHeld laps by id (err e) s keep h = tt
start_page-IsHeld laps by id (ok page) s keep h = start_jobs-IsHeld laps by id page.items s keep h

-- On a well-formed table, whatever fails and whatever other calls of the store are made between the fetch
-- and the first lock: a round starts no job twice. A job that it has started is locked by this instance at
-- the end of the round, and being processed as long as its row is there, if none of the calls that are made
-- during the laps is its MarkSuccess, its MarkFailure or an UnlockStaleJobs.
pub process_due_jobs-IsHeld :
    (r : Round) (size : ℕ) (by : String) (s : Store) (id : ℕ)
    → IsWellFormed s
    → ((job : EnqueuedJob) → All (KeepsLock id) (r.laps job).meanwhile)
    → let x = process_due_jobs r size by s in
      AreDistinct x.1 × All (λ job. (job.id ≢ id) ⊎ IsHeld id by x.0) x.1
unfolding process_due_jobs
process_due_jobs-IsHeld r size by s id h keep = (
  start_page-AreDistinct r r.fault size by s (run_all r.before s) h,
  start_page-IsHeld r.laps by id _ (run_all r.before s) keep (run_all-IsWellFormed r.before s h),
)
