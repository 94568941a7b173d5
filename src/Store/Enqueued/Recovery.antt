-- ===== src/Store/Enqueued/Recovery.antt =====
-- What brings jobs back: MarkRetryFailedJobs, MarkFailure and UnlockStaleJobs; and FindByID.
use go_fire.Base.{
  ℕ, ◌+◌, ◌≤◌, ◌<◌, ◌≡◌, ◌≢◌, Bool, true, false, List, [], ◌∷◌, none, some, String, ok, arith, ◌==◌,
  Bool-cases, inl, inr, ◌&&◌, ◌⊎◌,
}
use go_fire.Status.{queued, processing, failed, retrying, dead, is}
use go_fire.Status.Laws.{is-iff-eq}
use go_fire.Store.Sql.{Time, update_where, affected}
use go_fire.Store.Enqueued.{
  Row, Store, EnqueuedJob, find_by_id, mark_retry_failed_jobs, mark_failure, unlock_stale_jobs,
  lock_job, lockable, take_lock, retryable, locked_until,
}

-- FindByID finds no job, whatever the table holds: it reads the cursor before its first row.
pub find_by_id_fails : (id : ℕ) (s : Store) (job : EnqueuedJob) → find_by_id id s ≢ ok job
unfolding find_by_id
find_by_id_fails id s job e = cc

-- Two rows of one job: before and after a statement.
abbrev pub Rel : (Row → Row → Type 0) → List Row → List Row → Type 0
Rel R [] [] = Unit
Rel R [] (_ ∷ _) = ⊥
Rel R (_ ∷ _) [] = ⊥
Rel R (r ∷ rs) (q ∷ qs) = R r q × Rel R rs qs

update_where-Rel :
    (R : Row → Row → Type 0) (p : Row → Bool) (f : Row → Row)
    → ((r : Row) → p r ≡ true → R r (f r))
    → ((r : Row) → p r ≡ false → R r r)
    → (rows : List Row) → Rel R rows (update_where p f rows)
unfolding update_where
update_where-Rel R p f hit miss [] = tt
update_where-Rel R p f hit miss (r ∷ rows) = elim (Bool-cases (p r)) [
  | inl h ↦ rw h (hit r h, update_where-Rel R p f hit miss rows)
  | inr h ↦ rw h (miss r h, update_where-Rel R p f hit miss rows)
]

-- A failed row with attempts left is rescheduled a minute ahead; every other row stays as it is.
abbrev pub Retried : ℕ → Row → Row → Type 0
Retried now r q =
    ((r.status ≡ failed)
      × (r.attempts < r.max_attempts)
      × (q ≡ record r { status = retrying; scheduled_at = now + 60000000000 }))
    ⊎ (((r.status ≢ failed) ⊎ (r.max_attempts ≤ r.attempts)) × (q ≡ r))

-- MarkRetryFailedJobs reschedules exactly the failed rows that have attempts left.
pub mark_retry_failed_jobs-Retried :
    (now : Time) (s : Store) → Rel (Retried now) s.rows (mark_retry_failed_jobs none now s).0.rows
unfolding mark_retry_failed_jobs
mark_retry_failed_jobs-Retried now s =
    update_where-Rel (Retried now) retryable _ (λ r h. ground (arith, is-iff-eq r.status failed))
      (λ r h. ground (arith, is-iff-eq r.status failed)) s.rows

-- MarkFailure counts one more attempt on the rows with the id and buries them when the attempt that
-- is reported is the third or later; every other row stays as it is.
abbrev pub Failed : ℕ → String → ℕ → Row → Row → Type 0
Failed id msg attempts r q =
    ((r.id ≡ id)
      × (q.attempts ≡ r.attempts + 1)
      × (q.last_error ≡ some msg)
      × (((3 ≤ attempts) × (q.status ≡ dead)) ⊎ ((attempts < 3) × (q.status ≡ failed))))
    ⊎ ((r.id ≢ id) × (q ≡ r))

pub mark_failure-Failed :
    (id : ℕ) (msg : String) (attempts max_attempts : ℕ) (s : Store)
    → Rel (Failed id msg attempts) s.rows (mark_failure none id msg attempts max_attempts s).0.rows
unfolding mark_failure
mark_failure-Failed id msg attempts max_attempts s =
    update_where-Rel (Failed id msg attempts) (λ r. r.id == id) _ (λ r h. ground arith)
      (λ r h. ground arith) s.rows

affected-unlocked :
    (now later timeout : Time) (id : ℕ) (by by' : String) (rows : List Row)
    → now ≤ later
    → 0 < affected (lockable id) rows
    → 0
      < affected (lockable id) (
          update_where
            (λ r. is r.status processing && locked_until later r.locked_at)
            (λ r. record r { status = queued; locked_by = none; locked_at = none })
            (update_where (lockable id) (take_lock now by) rows))
unfolding affected update_where
affected-unlocked now later timeout id by by' [] le h = absurd (omega arith)
affected-unlocked now later timeout id by by' (r ∷ rows) le h = elim (Bool-cases (lockable id r)) [
  | inl free ↦ ground arith
  | inr taken ↦ ground (arith, affected-unlocked now later timeout id by by' rows le)
]

-- UnlockStaleJobs frees a job however fresh its lock is: after an instance has locked a job, an
-- UnlockStaleJobs at any later or equal time, with any timeout, lets another instance lock it.
pub unlock_stale_jobs_breaks_lock :
    (now later timeout : Time) (id : ℕ) (by by' : String) (s : Store)
    → (lock_job none now id by s).1 ≡ ok true
    → now ≤ later
    → (lock_job none later id by'
        (unlock_stale_jobs none later timeout (lock_job none now id by s).0).0).1
      ≡ ok true
unfolding lock_job unlock_stale_jobs
unlock_stale_jobs_breaks_lock now later timeout id by by' s h le =
    ground (arith, affected-unlocked now later timeout id by by' s.rows le)
