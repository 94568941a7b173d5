-- ===== src/Tests/Store.antt =====
-- Runs of the store of enqueued jobs, and the theorems about it at concrete inputs.
use go_fire.Base.{ℕ, ◌*◌, ◌%◌, ◌≡◌, ◌≢◌, refl, true, none, some, [], ◌∷◌, List, arith, ok, map}
use go_fire.Status.{queued, dead}
use go_fire.Base.Sort.{sort_by}
use go_fire.Store.Page.{PaginationResult}
use go_fire.Store.Enqueued.{
  Row, Store, EnqueuedJob, Job, columns, insert, find_by_id, fetch_due_jobs, lock_job, mark_failure,
  mark_retry_failed_jobs, unlock_stale_jobs,
}
use go_fire.Store.Enqueued.Bulk.{bulk_insert, insert_each, bulk_insert-insert_each}
use go_fire.Store.Enqueued.Ops.{
  Op, insert_op, failure_op, retry_op, run, run_all, empty, IsWellFormed, reachable-IsWellFormed,
}
use go_fire.Store.Enqueued.Locking.{lock_job_exclusive}
use go_fire.Store.Enqueued.Due.{work_statuses, due_rows, due}
use go_fire.Store.Enqueued.Paging.{pages, pages_complete, pages-times}
use go_fire.Base.Sort.Ties.{AreApart}
use go_fire.Store.Enqueued.Recovery.{unlock_stale_jobs_breaks_lock}

abbrev mail : Op
mail = insert_op none 10 "mail" 20 (some "[]")

abbrev sms : Op
sms = insert_op none 11 "sms" 15 (some "[1]")

-- Two jobs, the second one due first.
abbrev two : Store
two = run_all (mail ∷ sms ∷ []) empty

due_order :
    map (λ (r : Row). r.name) (due_rows (λ r. 0) 100 work_statuses (some 50) two)
    ≡ "sms" ∷ "mail" ∷ []
unfolding run insert sort_by go_fire.Store.Enqueued.is_due
due_order = refl

-- Locked, failed three times with retries in between: dead.
buried :
    map
      (λ (r : Row). r.status)
      (run_all
        (failure_op none 1 "e" 1 3
          ∷ retry_op none 60
          ∷ failure_op none 1 "e" 2 3
          ∷ retry_op none 70
          ∷ failure_op none 1 "e" 3 3
          ∷ retry_op none 80
          ∷ [])
        two).rows
    ≡ dead ∷ queued ∷ []
unfolding run insert mark_failure mark_retry_failed_jobs
buried = refl

reachable-IsWellFormed_example : IsWellFormed two
reachable-IsWellFormed_example = reachable-IsWellFormed (mail ∷ sms ∷ [])

lock_job_exclusive_example :
    (lock_job none 40 1 "pod b" (run_all (mail ∷ []) (lock_job none 30 1 "pod a" two).0)).1
    ≢ ok true
unfolding lock_job run insert
lock_job_exclusive_example =
    lock_job_exclusive none none 30 40 1 "pod a" "pod b" two (mail ∷ [])
      (reachable-IsWellFormed (mail ∷ sms ∷ [])) refl (tt, tt)

-- The database reads the rows in another order for every other page.
abbrev turned : ℕ → Row → ℕ
turned n r = n % 2 * r.id

due_apart : AreApart (λ (r : Row). r.scheduled_at) (due 100 work_statuses (some 50) two)
unfolding run insert go_fire.Store.Enqueued.is_due
due_apart = (((λ e. ground (arith, e)), tt), (tt, tt))

pages_complete_example :
    (result : PaginationResult EnqueuedJob) × (fetch_due_jobs none
        (turned 0)
        100
        1
        1
        work_statuses
        (some 50)
        two
      ≡ ok result)
    × (pages result.total_pages turned 100 1 work_statuses (some 50) two
        ≡ map columns (sort_by (λ (r : Row). r.scheduled_at) (due 100 work_statuses (some 50) two)))
pages_complete_example =
    pages_complete turned 100 1 1 work_statuses (some 50) two (omega arith) due_apart

pages-times_example :
    (result : PaginationResult EnqueuedJob) × (fetch_due_jobs none
        (turned 0)
        100
        1
        1
        work_statuses
        (some 50)
        two
      ≡ ok result)
    × (map
          (λ (job : EnqueuedJob). job.scheduled_at)
          (pages result.total_pages turned 100 1 work_statuses (some 50) two)
        ≡ sort_by
            (λ t. t)
            (map (λ (r : Row). r.scheduled_at) (due 100 work_statuses (some 50) two)))
pages-times_example = pages-times turned 100 1 1 work_statuses (some 50) two (omega arith)

abbrev batch : List Job
batch = record { name = "a"; args = some "[]"; scheduled_at = 5 } ∷ []

bulk_insert-insert_each_example : bulk_insert none 9 batch two ≡ (insert_each 9 batch two, ok tt)
bulk_insert-insert_each_example = bulk_insert-insert_each 9 batch two (("[]", refl), tt)

unlock_stale_jobs_breaks_lock_example :
    (lock_job none 31 1 "pod b"
      (unlock_stale_jobs none 31 300 (lock_job none 30 1 "pod a" two).0).0).1
    ≡ ok true
unfolding lock_job run insert
unlock_stale_jobs_breaks_lock_example =
    unlock_stale_jobs_breaks_lock 30 31 300 1 "pod a" "pod b" two refl (omega arith)
