-- ===== src/Store/Enqueued/Locking.antt =====
-- LockJob as a lock: who gets it, and how long it is held.
use go_fire.Base.{
  ℕ, suc, ◌≤◌, ◌<◌, ◌≡◌, ◌≢◌, refl, sym, ◌∙◌, Bool, true, not, List, [], ◌∷◌, ◌++◌, map, Option,
  none, some, String, Error, Result, ok, err, arith, ◌==◌, select, All, Bool-cases, inl, inr,
}
use go_fire.Status.{processing}
use go_fire.Store.Sql.{Time, update_where, affected}
use go_fire.Store.Sql.Laws.{All-update_where}
use go_fire.Store.Enqueued.{
  Row, Store, insert, remove_by_id, mark_retry_failed_jobs, lock_job, mark_success, mark_failure,
  unlock_stale_jobs, new_row, append_row, take_lock, lockable,
}
use go_fire.Store.Enqueued.Bulk.{marshal_batch, append_rows, insert_values, bulk_insert}
use go_fire.Store.Enqueued.Ops.{
  Op, insert_op, bulk_op, remove_op, retry_op, lock_op, success_op, failure_op, unlock_op, run,
  run_all, Rising, IsWellFormed,
}

-- The row with this id, if there is one, is being processed for `by`.
abbrev pub IsHeldRow : ℕ → String → Row → Type 0
IsHeldRow id by r = r.id ≡ id → (r.status ≡ processing) × (r.locked_by ≡ some by)

-- The job with this id is locked by the instance `by`; no later row will take its id.
abbrev pub IsHeld : ℕ → String → Store → Type 0
IsHeld id by s = (id < s.next_id) × All (IsHeldRow id by) s.rows

-- Calls that do not end the processing of the job: its MarkSuccess and MarkFailure, and
-- UnlockStaleJobs, do.
abbrev pub KeepsLock : ℕ → Op → Type 0
KeepsLock id (success_op _ _ j) = j ≢ id
KeepsLock id (failure_op _ j _ _ _) = j ≢ id
KeepsLock id (unlock_op _ _ _) = ⊥
KeepsLock id (insert_op _ _ _ _ _) = Unit
KeepsLock id (bulk_op _ _ _) = Unit
KeepsLock id (remove_op _ _) = Unit
KeepsLock id (retry_op _ _) = Unit
KeepsLock id (lock_op _ _ _ _) = Unit

IsHeldRow-above :
    (id : ℕ) (by : String) (lo : ℕ) (rows : List Row) (hi : ℕ)
    → id < lo
    → Rising lo (map (λ (r : Row). r.id) rows) hi
    → All (IsHeldRow id by) rows
IsHeldRow-above id by lo [] hi lt h = tt
IsHeldRow-above id by lo (r ∷ rows) hi lt h =
    ((λ e. absurd (omega arith)), IsHeldRow-above id by (suc r.id) rows hi (omega arith) h.1)

Rising-le' :
    (lo : ℕ) (rows : List Row) (hi : ℕ) → Rising lo (map (λ (r : Row). r.id) rows) hi → lo ≤ hi
Rising-le' lo [] hi h = h
Rising-le' lo (r ∷ rows) hi h = omega (arith, Rising-le' (suc r.id) rows hi h.1)

affected-above :
    (id : ℕ) (lo : ℕ) (rows : List Row) (hi : ℕ)
    → id < lo
    → Rising lo (map (λ (r : Row). r.id) rows) hi
    → affected (lockable id) rows ≡ 0
unfolding affected
affected-above id lo [] hi lt h = refl
affected-above id lo (r ∷ rows) hi lt h = ground (arith, affected-above id (suc r.id) rows hi)

take_lock-IsHeldRow :
    (now : Time) (id : ℕ) (by : String) (lo : ℕ) (rows : List Row) (hi : ℕ)
    → Rising lo (map (λ (r : Row). r.id) rows) hi
    → 0 < affected (lockable id) rows
    → (id < hi) × All (IsHeldRow id by) (update_where (lockable id) (take_lock now by) rows)
unfolding update_where affected
take_lock-IsHeldRow now id by lo [] hi h hit = absurd (omega arith)
take_lock-IsHeldRow now id by lo (r ∷ rows) hi h hit = elim (Bool-cases (lockable id r)) [
  | inl free ↦ (
    ground (arith, Rising-le' (suc r.id) rows hi h.1),
    (
      (rw free (λ e. (refl, refl))),
      All-update_where (IsHeldRow id by) (lockable id) (take_lock now by)
          (λ x locks held e. (refl, refl)) rows
          (IsHeldRow-above id by (suc r.id) rows hi (ground arith) h.1),
    ),
  )
  | inr taken ↦
      let rest = take_lock-IsHeldRow now id by (suc r.id) rows hi h.1 (ground arith) in
      (
        rest.0,
        (rw taken (λ e. absurd (ground (arith, affected-above id (suc r.id) rows hi))), rest.1),
      )
]

-- A LockJob that answers true leaves the job locked by the caller.
pub lock_job-IsHeld :
    (fault : Option Error) (now : Time) (id : ℕ) (by : String) (s : Store)
    → IsWellFormed s
    → (lock_job fault now id by s).1 ≡ ok true
    → IsHeld id by (lock_job fault now id by s).0
unfolding lock_job
lock_job-IsHeld (some e) now id by s h hit = cc
lock_job-IsHeld none now id by s h hit =
    take_lock-IsHeldRow now id by 1 s.rows s.next_id h (ground arith)

append_row-IsHeld :
    (now : Time) (name payload : String) (at : Time) (id : ℕ) (by : String) (s : Store)
    → IsHeld id by s
    → IsHeld id by (append_row (new_row now s.next_id name payload at) s)
append_row-IsHeld now name payload at id by s h = (omega arith, go s.rows h.1)
  where
    go :
        (rows : List Row)
        → All (IsHeldRow id by) rows
        → All (IsHeldRow id by) (rows ++ new_row now s.next_id name payload at ∷ [])
    go [] _ = ((λ e. absurd (omega arith)), tt)
    go (r ∷ rows) k = (k.0, go rows k.1)

append_rows-IsHeld :
    (now : Time) (values : List (String × String × Time)) (id : ℕ) (by : String) (s : Store)
    → IsHeld id by s
    → IsHeld id by (append_rows now values s)
unfolding append_rows
append_rows-IsHeld now [] id by s h = h
append_rows-IsHeld now ((name, payload, at) ∷ values) id by s h =
    append_rows-IsHeld now values id by (append_row (new_row now s.next_id name payload at) s)
      (append_row-IsHeld now name payload at id by s h)

insert_values-IsHeld :
    (fault : Option Error) (now : Time) (values : Result (List (String × String × Time))) (id : ℕ)
    (by : String) (s : Store)
    → IsHeld id by s
    → IsHeld id by (insert_values fault now values s).0
unfolding insert_values
insert_values-IsHeld (some _) now (ok values) id by s h = h
insert_values-IsHeld none now (ok values) id by s h = append_rows-IsHeld now values id by s h
insert_values-IsHeld (some _) now (err _) id by s h = h
insert_values-IsHeld none now (err _) id by s h = h

select-IsHeld :
    (p : Row → Bool) (id : ℕ) (by : String) (rows : List Row)
    → All (IsHeldRow id by) rows
    → All (IsHeldRow id by) (select p rows)
select-IsHeld p id by [] h = tt
select-IsHeld p id by (r ∷ rows) h = elim (Bool-cases (p r)) [
  | inl keep ↦ rw keep (h.0, select-IsHeld p id by rows h.1)
  | inr drop' ↦ rw drop' (select-IsHeld p id by rows h.1)
]

-- An update that cannot touch a row which is being processed keeps the lock.
update-IsHeld :
    (p : Row → Bool) (f : Row → Row) (id : ℕ) (by : String) (s : Store)
    → ((r : Row) → p r ≡ true → ((f r).id ≡ r.id) × ((r.id ≡ id) → (r.status ≡ processing) → ⊥))
    → IsHeld id by s
    → IsHeld id by (record s { rows = update_where p f s.rows })
update-IsHeld p f id by s keep h = (
  h.0,
  All-update_where (IsHeldRow id by) p f
      (λ r hit held e.
        let same = sym (keep r hit).0 ∙ e in absurd ((keep r hit).1 same (held same).0))
      s.rows h.1,
)

pub run-IsHeld :
    (op : Op) (id : ℕ) (by : String) (s : Store)
    → KeepsLock id op
    → IsHeld id by s
    → IsHeld id by (run op s)
unfolding run insert bulk_insert remove_by_id mark_retry_failed_jobs lock_job mark_success
    mark_failure unlock_stale_jobs
run-IsHeld (insert_op fault now name at none) id by s k h = h
run-IsHeld (insert_op (some e) now name at (some payload)) id by s k h = h
run-IsHeld (insert_op none now name at (some payload)) id by s k h =
    append_row-IsHeld now name payload at id by s h
run-IsHeld (bulk_op fault now []) id by s k h = h
run-IsHeld (bulk_op fault now (job ∷ batch)) id by s k h =
    insert_values-IsHeld fault now (marshal_batch (job ∷ batch)) id by s h
run-IsHeld (remove_op (some e) j) id by s k h = h
run-IsHeld (remove_op none j) id by s k h =
    (h.0, select-IsHeld (λ r. not (r.id == j)) id by s.rows h.1)
run-IsHeld (retry_op (some e) now) id by s k h = h
run-IsHeld (retry_op none now) id by s k h =
    update-IsHeld _ _ id by s (λ r hit. (refl, λ e p. ground arith)) h
run-IsHeld (lock_op (some e) now j by') id by s k h = h
run-IsHeld (lock_op none now j by') id by s k h =
    update-IsHeld _ _ id by s (λ r hit. (refl, λ e p. ground arith)) h
run-IsHeld (success_op (some e) now j) id by s k h = h
run-IsHeld (success_op none now j) id by s k h =
    update-IsHeld _ _ id by s (λ r hit. (refl, λ e p. ground arith)) h
run-IsHeld (failure_op (some e) j msg attempts max) id by s k h = h
run-IsHeld (failure_op none j msg attempts max) id by s k h =
    update-IsHeld _ _ id by s (λ r hit. (refl, λ e p. ground arith)) h
run-IsHeld (unlock_op fault now timeout) id by s k h = absurd k

-- The job stays locked by the instance through any calls that do not end its processing.
pub run_all-IsHeld :
    (ops : List Op) (id : ℕ) (by : String) (s : Store)
    → All (KeepsLock id) ops
    → IsHeld id by s
    → IsHeld id by (run_all ops s)
run_all-IsHeld [] id by s k h = h
run_all-IsHeld (op ∷ ops) id by s k h =
    run_all-IsHeld ops id by (run op s) k.1 (run-IsHeld op id by s k.0 h)

affected-held :
    (id : ℕ) (by : String) (rows : List Row)
    → All (IsHeldRow id by) rows
    → affected (lockable id) rows ≡ 0
unfolding affected
affected-held id by [] h = refl
affected-held id by (r ∷ rows) h = elim (Bool-cases (lockable id r)) [
  | inl free ↦ absurd (ground (arith, h.0 (ground arith)))
  | inr taken ↦ rw taken (affected-held id by rows h.1)
]

-- While a job is locked no LockJob for it answers true.
pub IsHeld-lock_job :
    (fault : Option Error) (now : Time) (id : ℕ) (by by' : String) (s : Store)
    → IsHeld id by s
    → (lock_job fault now id by' s).1 ≢ ok true
unfolding lock_job
IsHeld-lock_job (some e) now id by by' s h = λ hit. cc
IsHeld-lock_job none now id by by' s h = λ hit. ground (arith, affected-held id by s.rows h.1)

-- Mutual exclusion: once an instance has locked a job, no instance locks it again until the job's
-- MarkSuccess or MarkFailure, or an UnlockStaleJobs, whatever other calls are made in between.
pub lock_job_exclusive :
    (fault fault' : Option Error) (now now' : Time) (id : ℕ) (by by' : String) (s : Store)
    (ops : List Op)
    → IsWellFormed s
    → (lock_job fault now id by s).1 ≡ ok true
    → All (KeepsLock id) ops
    → (lock_job fault' now' id by' (run_all ops (lock_job fault now id by s).0)).1 ≢ ok true
lock_job_exclusive fault fault' now now' id by by' s ops h hit keep =
    IsHeld-lock_job fault' now' id by by' _
      (run_all-IsHeld ops id by _ keep (lock_job-IsHeld fault now id by s h hit))
