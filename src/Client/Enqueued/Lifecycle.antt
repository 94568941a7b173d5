-- ===== src/Client/Enqueued/Lifecycle.antt =====
-- The life of one job: what the statements of the store and the result processor make of its row, from
-- its insertion on, follows a machine of four phases.
pub mod Rows
pub mod Fate
use go_fire.Base.{
  ℕ, suc, ◌+◌, ◌≤◌, ◌<◌, ◌≡◌, ◌≢◌, refl, sym, ap, ◌∙◌, ◌⊎◌, inl, inr, Bool, true, false, List, [],
  ◌∷◌, ◌++◌, map, Option, none, some, String, Error, Result, ok, err, arith, All, Bool-cases,
  Option-cases, if◌then◌else◌, leb, ltb, lt→ltb, ◌||◌, ◌==◌, ==_iff, length, select, find?,
}
use go_fire.Status.{
  JobStatus, queued, processing, succeeded, failed, retrying, dead, other, is, is_valid_transition,
}
use go_fire.Store.Sql.{Time, update_where, affected}
use go_fire.Store.Enqueued.{
  Row, Store, EnqueuedJob, columns, insert, new_row, lockable, take_lock, retryable, lock_job,
  mark_success, mark_failure, mark_retry_failed_jobs,
}
use go_fire.Store.Enqueued.Ops.{
  Op, lock_op, retry_op, success_op, failure_op, run, IsWellFormed, run-IsWellFormed,
}
use go_fire.Client.Enqueued.{JobResult, got, process_result}
use go_fire.Client.Enqueued.Waiting.{AreDistinctRows, rows-AreDistinct}
use go_fire.Client.Enqueued.Found.{has_id, find?-update_where, found-lockable, found-unlockable}
use go_fire.Client.Enqueued.Rounds.{IsResult, handle_job-IsResult}
use go_fire.Client.Enqueued.{handle_job}
use go_fire.Client.Handlers.{Handlers}

-- The job waits for its next run, after some failed ones; it has succeeded; it is buried; or it is left
-- in processing, since its handler has panicked.
pub data Phase : Type 0 where
  waits : ℕ → Phase
  done buried stuck : Phase

-- What the handler does when the job runs: with no error, with an error, or with a panic.
pub data Run : Type 0 where
  succeeds fails panics : Run

abbrev pub advance : Phase → Run → Phase
advance (waits n) succeeds = done
advance (waits n) fails = if leb 3 (n + 1) then buried else waits (n + 1)
advance (waits n) panics = stuck
advance done run = done
advance buried run = buried
advance stuck run = stuck

abbrev pub fate : Phase → List Run → Phase
fate phase [] = phase
fate phase (run ∷ runs) = fate (advance phase run) runs

abbrev pub phase_of : JobStatus → ℕ → Option Phase
phase_of queued n = some (waits n)
phase_of retrying n = some (waits n)
phase_of succeeded n = some done
phase_of dead n = some buried
phase_of processing n = some stuck
phase_of failed n = none
phase_of (other s) n = none

-- The job has a row with this name and payload, in this phase.
pub record IsRowIn (id : ℕ) (name payload : String) (phase : Phase) (s : Store) : Type 0 where
  pub row : Row
  pub found : find? (has_id id) s.rows ≡ some row
  pub in_phase : phase_of row.status row.attempts ≡ some phase
  pub thrice : row.max_attempts ≡ 3
  pub named : row.name ≡ name
  pub loaded : row.payload ≡ payload

-- What the result of a job tells.
abbrev pub run_of : Option JobResult → Run
run_of none = panics
run_of (some res) = elim res.error [ none ↦ succeeds | some e ↦ fails ]

-- A round in which the worker tries the job, and the tick of the retry loop behind it: the instance,
-- the database's clock, and what the instance has registered.
pub record Cycle (Args : Type 0) : Type 0 where
  pub by : String
  pub now : Time
  pub handlers : Handlers Args

abbrev pub settle : Time → Option JobResult → Store → Store
unfolding process_result
settle now none s = s
settle now (some res) s = process_result none now res s

module _ {Args : Type 0} (unmarshal : String → Result Args) (id : ℕ) where
  -- LockJob, and where it has taken the lock, handleJob and the result processor.
  abbrev pub try_job : Cycle Args → Row → Store → Store
  unfolding lock_job handle_job settle
  try_job c r s =
      let locked = lock_job none c.now id c.by s in
      if got locked.1
      then settle c.now (handle_job unmarshal c.handlers (columns r)) locked.0
      else locked.0

  unfoldable pub cycle : Cycle Args → Store → Store
  unfolding try_job mark_retry_failed_jobs
  cycle c s = elim (find? (has_id id) s.rows) [
    | none ↦ s
    | some r ↦ (mark_retry_failed_jobs none c.now (try_job c r s)).0
  ]

  unfoldable pub cycles : List (Cycle Args) → Store → Store
  cycles [] s = s
  cycles (c ∷ cs) s = cycles cs (cycle c s)

phase-inj : {p q : Phase} → some p ≡ some q → p ≡ q
phase-inj h = cc

pub unlockable-phase :
    (st : JobStatus) (n : ℕ) (run : Run) {phase : Phase}
    → phase_of st n ≡ some phase
    → (is st queued || is st retrying) ≡ false
    → (advance phase run ≡ phase) × (is st failed ≡ false)
unlockable-phase queued n run h l = absurd cc
unlockable-phase retrying n run h l = absurd cc
unlockable-phase failed n run h l = absurd cc
unlockable-phase (other s) n run h l = absurd cc
unlockable-phase succeeded n run {phase} h l =
    let e : done ≡ phase = phase-inj h in rw (← e) (refl, refl)
unlockable-phase dead n run {phase} h l =
    let e : buried ≡ phase = phase-inj h in rw (← e) (refl, refl)
unlockable-phase processing n run {phase} h l =
    let e : stuck ≡ phase = phase-inj h in rw (← e) (refl, refl)

pub lockable-phase :
    (st : JobStatus) (n : ℕ) {phase : Phase}
    → phase_of st n ≡ some phase
    → (is st queued || is st retrying) ≡ true
    → waits n ≡ phase
lockable-phase queued n h l = phase-inj h
lockable-phase retrying n h l = phase-inj h
lockable-phase failed n h l = absurd cc
lockable-phase (other s) n h l = absurd cc
lockable-phase succeeded n h l = absurd cc
lockable-phase dead n h l = absurd cc
lockable-phase processing n h l = absurd cc
