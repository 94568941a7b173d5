-- ===== src/Store/CronJobs/Locking.antt =====
-- LockJob of the store of cron jobs as a lock, and the jobs that it never gives again.
use go_fire.Base.{
  ℕ, suc, ◌≤◌, ◌<◌, ◌≡◌, ◌≢◌, refl, sym, ◌∙◌, Bool, true, List, [], ◌∷◌, ◌++◌, map, Option, none,
  some, String, Error, ok, arith, find?, All, Bool-cases, Option-cases, inl, inr,
}
use go_fire.Status.{processing}
use go_fire.Store.Sql.{Time, update_where, affected}
use go_fire.Store.Sql.Laws.{All-update_where}
use go_fire.Store.Enqueued.Ops.{Rising}
use go_fire.Store.CronJobs.{
  Row, Store, Schedule, new_row, named, reschedule, upsert, add_or_update, update_row,
  update_job_run_times, mark_success, mark_failure, lockable, take_lock, lock_job, unlock_job,
  activate, deactivate, execute_change_activate_query,
}
use go_fire.Store.CronJobs.Ops.{
  Op, upsert_op, run_times_op, success_op, failure_op, lock_op, unlock_op, activate_op,
  deactivate_op, run, run_all, IsWellFormed,
}

abbrev pub IsBusyRow : ℕ → Row → Type 0
IsBusyRow id r = r.id ≡ id → r.status ≡ processing

-- The job with this id is being processed; no later row will take its id.
abbrev pub IsBusy : ℕ → Store → Type 0
IsBusy id s = (id < s.next_id) × All (IsBusyRow id) s.rows

-- Calls that do not end the processing of the job: its MarkSuccess and MarkFailure do.
abbrev pub KeepsBusy : ℕ → Op → Type 0
KeepsBusy id (success_op _ j) = j ≢ id
KeepsBusy id (failure_op _ j _) = j ≢ id
KeepsBusy id _ = Unit

lockable-above :
    (id lo : ℕ) (rows : List Row) (hi : ℕ)
    → id < lo
    → Rising lo (map (λ (r : Row). r.id) rows) hi
    → All (IsBusyRow id) rows × (lo ≤ hi) × (affected (lockable id) rows ≡ 0)
unfolding affected
lockable-above id lo [] hi lt h = (tt, h, refl)
lockable-above id lo (r ∷ rows) hi lt h =
    let rest = lockable-above id (suc r.id) rows hi (omega arith) h.1 in
    (((λ e. absurd (omega arith)), rest.0), omega arith, ground arith)

take_lock-IsBusy :
    (now : Time) (id : ℕ) (by : String) (lo : ℕ) (rows : List Row) (hi : ℕ)
    → Rising lo (map (λ (r : Row). r.id) rows) hi
    → 0 < affected (lockable id) rows
    → (id < hi) × All (IsBusyRow id) (update_where (lockable id) (take_lock now by) rows)
unfolding update_where affected
take_lock-IsBusy now id by lo [] hi h hit = absurd (omega arith)
take_lock-IsBusy now id by lo (r ∷ rows) hi h hit = elim (Bool-cases (lockable id r)) [
  | inl free ↦
      let rest = lockable-above id (suc r.id) rows hi (ground arith) h.1 in
      (
        ground arith,
        (
          (rw free (λ e. refl)),
          All-update_where (IsBusyRow id) (lockable id) (take_lock now by) (λ x locks busy e. refl)
              rows rest.0,
        ),
      )
  | inr taken ↦
      let rest = take_lock-IsBusy now id by (suc r.id) rows hi h.1 (ground arith) in
      (
        rest.0,
        (rw taken (λ e. absurd (ground (arith, lockable-above id (suc r.id) rows hi))), rest.1),
      )
]

-- An update that leaves the status of a row with this id alone keeps the job busy.
update-IsBusy :
    (p : Row → Bool) (f : Row → Row) (id : ℕ) (s : Store)
    → ((r : Row) → p r ≡ true → IsBusyRow id r → IsBusyRow id (f r))
    → IsBusy id s
    → IsBusy id (record s { rows = update_where p f s.rows })
update-IsBusy p f id s keep h = (h.0, All-update_where (IsBusyRow id) p f keep s.rows h.1)

-- So does an update of other rows.
elsewhere-IsBusy :
    (p : Row → Bool) (f : Row → Row) (id : ℕ) (s : Store)
    → ((r : Row) → p r ≡ true → ((f r).id ≡ r.id) × (r.id ≢ id))
    → IsBusy id s
    → IsBusy id (record s { rows = update_where p f s.rows })
elsewhere-IsBusy p f id s other =
    update-IsBusy p f id s (λ r hit busy e. absurd ((other r hit).1 (sym (other r hit).0 ∙ e)))

upsert-IsBusy :
    (now : Time) (name : String) (sched : Schedule) (id : ℕ) (s : Store)
    → IsBusy id s
    → IsBusy id (upsert (find? (named name) s.rows) now name sched s).0
unfolding upsert
upsert-IsBusy now name sched id s h = elim (Option-cases (find? (named name) s.rows)) [
  | inl missing ↦ rw missing (omega arith, go s.rows h.1)
  | inr (r, found) ↦
      let k = update-IsBusy (named name) (reschedule now sched) id s (λ r hit busy. busy) h in
      rw found (omega arith, k.1)
]
  where
    go :
        (rows : List Row)
        → All (IsBusyRow id) rows
        → All (IsBusyRow id) (rows ++ new_row now s.next_id name sched ∷ [])
    go [] _ = ((λ e. absurd (omega arith)), tt)
    go (r ∷ rows) k = (k.0, go rows k.1)

run-IsBusy : (op : Op) (id : ℕ) (s : Store) → KeepsBusy id op → IsBusy id s → IsBusy id (run op s)
unfolding run add_or_update update_row update_job_run_times mark_success mark_failure lock_job
    unlock_job activate deactivate execute_change_activate_query
run-IsBusy (upsert_op fault now name at expr none) id s k h = h
run-IsBusy (upsert_op (some e) now name at expr (some args)) id s k h = h
run-IsBusy (upsert_op none now name at expr (some args)) id s k h = upsert-IsBusy now name _ id s h
run-IsBusy (run_times_op (some e) j last next) id s k h = h
run-IsBusy (run_times_op none j last next) id s k h = update-IsBusy _ _ id s (λ r hit busy. busy) h
run-IsBusy (success_op (some e) j) id s k h = h
run-IsBusy (success_op none j) id s k h =
    elsewhere-IsBusy _ _ id s (λ r hit. (refl, λ e. ground arith)) h
run-IsBusy (failure_op (some e) j msg) id s k h = h
run-IsBusy (failure_op none j msg) id s k h =
    elsewhere-IsBusy _ _ id s (λ r hit. (refl, λ e. ground arith)) h
run-IsBusy (lock_op (some e) now j by) id s k h = h
run-IsBusy (lock_op none now j by) id s k h =
    update-IsBusy (lockable j) (take_lock now by) id s (λ r hit busy e. refl) h
run-IsBusy (unlock_op (some e) j) id s k h = h
run-IsBusy (unlock_op none j) id s k h = update-IsBusy _ _ id s (λ r hit busy. busy) h
run-IsBusy (activate_op (some e) j) id s k h = h
run-IsBusy (activate_op none j) id s k h = update-IsBusy _ _ id s (λ r hit busy. busy) h
run-IsBusy (deactivate_op (some e) j) id s k h = h
run-IsBusy (deactivate_op none j) id s k h = update-IsBusy _ _ id s (λ r hit busy. busy) h

run_all-IsBusy :
    (ops : List Op) (id : ℕ) (s : Store)
    → All (KeepsBusy id) ops
    → IsBusy id s
    → IsBusy id (run_all ops s)
run_all-IsBusy [] id s k h = h
run_all-IsBusy (op ∷ ops) id s k h = run_all-IsBusy ops id (run op s) k.1 (run-IsBusy op id s k.0 h)

affected-busy :
    (id : ℕ) (rows : List Row) → All (IsBusyRow id) rows → affected (lockable id) rows ≡ 0
unfolding affected
affected-busy id [] h = refl
affected-busy id (r ∷ rows) h = elim (Bool-cases (lockable id r)) [
  | inl free ↦ absurd (ground (arith, h.0 (ground arith)))
  | inr taken ↦ rw taken (affected-busy id rows h.1)
]

lock_job-IsBusy :
    (fault : Option Error) (now : Time) (id : ℕ) (by : String) (s : Store)
    → IsWellFormed s
    → (lock_job fault now id by s).1 ≡ ok true
    → IsBusy id (lock_job fault now id by s).0
unfolding lock_job
lock_job-IsBusy (some e) now id by s h hit = cc
lock_job-IsBusy none now id by s h hit =
    take_lock-IsBusy now id by 1 s.rows s.next_id h.0 (ground arith)

IsBusy-lock_job :
    (fault : Option Error) (now : Time) (id : ℕ) (by : String) (s : Store)
    → IsBusy id s
    → (lock_job fault now id by s).1 ≢ ok true
unfolding lock_job
IsBusy-lock_job (some e) now id by s h = λ hit. cc
IsBusy-lock_job none now id by s h = λ hit. ground (arith, affected-busy id s.rows h.1)

-- Once an instance has locked a cron job, no instance locks it again until the job's MarkSuccess or
-- MarkFailure, however much time passes and whatever other calls are made in between: UnLockJob does
-- not free it, nor does the age of the lock.
pub cron_lock_exclusive :
    (fault fault' : Option Error) (now now' : Time) (id : ℕ) (by by' : String) (s : Store)
    (ops : List Op)
    → IsWellFormed s
    → (lock_job fault now id by s).1 ≡ ok true
    → All (KeepsBusy id) ops
    → (lock_job fault' now' id by' (run_all ops (lock_job fault now id by s).0)).1 ≢ ok true
cron_lock_exclusive fault fault' now now' id by by' s ops h hit keep =
    IsBusy-lock_job fault' now' id by' _
      (run_all-IsBusy ops id _ keep (lock_job-IsBusy fault now id by s h hit))
