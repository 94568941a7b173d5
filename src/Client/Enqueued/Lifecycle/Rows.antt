-- ===== src/Client/Enqueued/Lifecycle/Rows.antt =====
-- What each statement of a round does to the row of one job.
use go_fire.Base.{
  ℕ, ◌+◌, ◌≡◌, refl, ap, ◌∙◌, inl, inr, true, false, Option, none, some, String, arith, Bool-cases,
  Option-cases, if◌then◌else◌, leb, ltb, lt→ltb, ◌==◌, find?,
}
use go_fire.Status.{succeeded, failed, retrying, dead, is, is_valid_transition}
use go_fire.Store.Sql.{Time, minute, affected}
use go_fire.Store.Enqueued.{
  Row, Store, EnqueuedJob, lockable, take_lock, retryable, lock_job, mark_success, mark_failure,
  mark_retry_failed_jobs,
}
use go_fire.Store.Enqueued.Ops.{success_op, failure_op, run, IsWellFormed, run-IsWellFormed}
use go_fire.Client.Enqueued.{JobResult, got, error_text, process_result}
use go_fire.Client.Enqueued.Waiting.{rows-AreDistinct}
use go_fire.Client.Enqueued.Found.{
  has_id, find?-update_where, find?-update_hit, found-lockable, found-unlockable,
}
use go_fire.Client.Enqueued.Rounds.{IsResult}
use go_fire.Client.Enqueued.Lifecycle.{Phase, waits, advance, phase_of, IsRowIn, run_of, settle}

-- The row of the job is the given one.
abbrev pub At : ℕ → Row → Store → Type 0
At id r s = find? (has_id id) s.rows ≡ some r

retry-At :
    (id : ℕ) (now : Time) (r : Row) (s : Store)
    → At id r s
    → At id
        (if retryable r then record r { status = retrying; scheduled_at = now + minute } else r)
        (mark_retry_failed_jobs none now s).0
unfolding mark_retry_failed_jobs
retry-At id now r s h = find?-update_where id retryable _ s.rows (λ x. refl) h

-- Where the job does not wait, LockJob refuses it.
pub lock-refused :
    (id : ℕ) (now : Time) (by : String) (r : Row) (s : Store)
    → IsWellFormed s
    → At id r s
    → lockable id r ≡ false
    → (got (lock_job none now id by s).1 ≡ false) × At id r (lock_job none now id by s).0
unfolding lock_job affected
lock-refused id now by r s wf h l = (
  rw (found-unlockable id s.rows (rows-AreDistinct 1 s.rows s.next_id wf) h l) refl,
  rw l at (find?-update_where id (lockable id) (take_lock now by) s.rows (λ x. refl) h),
)

pub lock-taken :
    (id : ℕ) (now : Time) (by : String) (r : Row) (s : Store)
    → At id r s
    → lockable id r ≡ true
    → (got (lock_job none now id by s).1 ≡ true)
      × At id (take_lock now by r) (lock_job none now id by s).0
unfolding lock_job affected
lock-taken id now by r s h l = (
  lt→ltb 0 _ (found-lockable id s.rows h l),
  rw l at (find?-update_where id (lockable id) (take_lock now by) s.rows (λ x. refl) h),
)

-- The row of the job once its result is stored.
pub settled : Time → JobResult → Row → Row
settled now res r = elim res.error [
  | none ↦ record r { status = succeeded; executed_at = some now }
  | some e ↦ record r {
    attempts = r.attempts + 1;
    last_error = some e;
    status = (if leb 3 (r.attempts + 1) then dead else failed);
  }
]

pub settle-At :
    (id : ℕ) (now : Time) (res : JobResult) (job : EnqueuedJob) (r : Row) (s : Store)
    → IsResult job res
    → job.id ≡ id
    → job.attempts ≡ r.attempts
    → r.id ≡ id
    → At id r s
    → At id (settled now res r) (process_result none now res s)
unfolding process_result mark_success mark_failure is_valid_transition settled
settle-At id now res job r s (same, count, inl (e, none')) ji ja ri h =
    let hit : (r.id == res.job_id) ≡ true = ground (arith, ri, ji, same) in
    rw (e, none') (find?-update_hit id (λ x. x.id == res.job_id) _ s.rows (λ x. refl) hit h)
settle-At id now res job r s (same, count, inr (msg, e, some')) ji ja ri h =
    let hit : (r.id == res.job_id) ≡ true = ground (arith, ri, ji, same) in
    let count' : res.attempts ≡ r.attempts + 1 = count ∙ ap (λ n. n + 1) ja in
    rw (e, some', count') (find?-update_hit id (λ x. x.id == res.job_id) _ s.rows (λ x. refl) hit h)

pub settle-IsWellFormed :
    (now : Time) (o : Option JobResult) (s : Store) → IsWellFormed s → IsWellFormed (settle now o s)
unfolding settle process_result run is_valid_transition mark_success mark_failure
settle-IsWellFormed now none s wf = wf
settle-IsWellFormed now (some res) s wf = elim (Bool-cases (is res.status succeeded)) [
  | inl yes' ↦ rw yes' (run-IsWellFormed (success_op none now res.job_id) s wf)
  | inr no' ↦ rw no' (elim (Bool-cases (is res.status failed)) [
    | inl yes' ↦ rw yes' (
        run-IsWellFormed
          (failure_op none res.job_id (error_text res.error) res.attempts res.max_attempts) s wf)
    | inr none' ↦ rw none' wf
  ])
]

-- A row in a phase, and what the retry loop makes of it.
pub record IsStep (name payload : String) (phase : Phase) (r : Row) : Type 0 where
  pub in_phase : phase_of (if retryable r then retrying else r.status) r.attempts ≡ some phase
  pub thrice : r.max_attempts ≡ 3
  pub named : r.name ≡ name
  pub loaded : r.payload ≡ payload

pub finish :
    (id : ℕ) (now : Time) {name payload : String} {phase : Phase} {r : Row} (s : Store)
    → At id r s
    → IsStep name payload phase r
    → IsRowIn id name payload phase (mark_retry_failed_jobs none now s).0
finish id now {name} {payload} {phase} {r} s h k = elim (Bool-cases (retryable r)) [
  | inl yes' ↦ record {
    row = record r { status = retrying; scheduled_at = now + minute };
    found = rw yes' at (retry-At id now r s h);
    in_phase = rw yes' at k.in_phase;
    thrice = k.thrice;
    named = k.named;
    loaded = k.loaded;
  }
  | inr no' ↦ record {
    row = r;
    found = rw no' at (retry-At id now r s h);
    in_phase = rw no' at k.in_phase;
    thrice = k.thrice;
    named = k.named;
    loaded = k.loaded;
  }
]

-- A job that has run.
pub settled-IsStep :
    (now : Time) (res : JobResult) (name payload : String) (r : Row)
    → r.max_attempts ≡ 3
    → r.name ≡ name
    → r.payload ≡ payload
    → IsStep name payload (advance (waits r.attempts) (run_of (some res))) (settled now res r)
unfolding settled
settled-IsStep now res name payload r three named loaded = elim (Option-cases res.error) [
  | inl good ↦ rw good (record { in_phase = refl; thrice = three; named = named; loaded = loaded })
  | inr (e, bad) ↦ elim (Bool-cases (leb 3 (r.attempts + 1))) [
    | inl last ↦
        rw (bad, last) (record { in_phase = refl; thrice = three; named = named; loaded = loaded })
    | inr more ↦
        let again : ltb (r.attempts + 1) r.max_attempts ≡ true = ground arith in
        rw (bad, more)
          (record { in_phase = rw again refl; thrice = three; named = named; loaded = loaded })
  ]
]
