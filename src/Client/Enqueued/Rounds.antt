-- ===== src/Client/Enqueued/Rounds.antt =====
-- What the calls of a round do to the table, and what becomes of a job that it has started.
use go_fire.Base.{
  ℕ, ◌+◌, ◌≤◌, ◌<◌, ◌≡◌, refl, ap, Bool, true, false, List, [], ◌∷◌, Option, none, some, String,
  Error, Result, ok, err, arith, ◌==◌, All, Bool-cases, inl, inr, ◌⊎◌,
}
use go_fire.Status.{succeeded, failed, dead, is_valid_transition}
use go_fire.Store.Sql.{Time, update_where}
use go_fire.Store.Enqueued.{Row, Store, EnqueuedJob, lock_job, mark_success, mark_failure}
use go_fire.Store.Enqueued.Ops.{lock_op, run, IsWellFormed, run-IsWellFormed}
use go_fire.Store.Enqueued.Locking.{IsHeld, run-IsHeld}
use go_fire.Client.Handlers.{Outcome, returned, panicked, Handlers, exists, error_to_job_status}
use go_fire.Client.Enqueued.{
  result, error_text, JobResult, result_of, run_handler, handle_job, process_result,
}

pub lock_job-IsWellFormed :
    (fault : Option Error) (now : Time) (id : ℕ) (by : String) (s : Store)
    → IsWellFormed s
    → IsWellFormed (lock_job fault now id by s).0
unfolding run
lock_job-IsWellFormed fault now id by s = run-IsWellFormed (lock_op fault now id by) s

pub lock_job-keeps :
    (fault : Option Error) (now : Time) (id j : ℕ) (by by' : String) (s : Store)
    → IsHeld j by' s
    → IsHeld j by' (lock_job fault now id by s).0
unfolding run
lock_job-keeps fault now id j by by' s = run-IsHeld (lock_op fault now id by) j by' s tt

-- A row after the result of a job: succeeded without an error, else dead from the third attempt on,
-- and failed before it.
abbrev pub IsSettled : EnqueuedJob → JobResult → Row → Type 0
IsSettled job res r =
    r.id ≡ job.id
    → ((r.status ≡ succeeded) × (res.error ≡ none))
      ⊎ ((e : Error) × (res.error ≡ some e)
          × (r.last_error ≡ some e)
          × (((r.status ≡ failed) × (job.attempts < 2)) ⊎ ((r.status ≡ dead) × (2 ≤ job.attempts))))

update_where-All :
    (P : Row → Type 0) (p : Row → Bool) (f : Row → Row) (rows : List Row)
    → ((r : Row) → p r ≡ true → P (f r))
    → ((r : Row) → p r ≡ false → P r)
    → All P (update_where p f rows)
unfolding update_where
update_where-All P p f [] hit miss = tt
update_where-All P p f (r ∷ rows) hit miss = elim (Bool-cases (p r)) [
  | inl yes' ↦ rw yes' (hit r yes', update_where-All P p f rows hit miss)
  | inr no' ↦ rw no' (miss r no', update_where-All P p f rows hit miss)
]

-- Results as handleJob makes them.
abbrev pub IsResult : EnqueuedJob → JobResult → Type 0
IsResult job res =
    (res.job_id ≡ job.id)
    × (res.attempts ≡ job.attempts + 1)
    × (((res.status ≡ succeeded) × (res.error ≡ none))
        ⊎ ((e : Error) × (res.status ≡ failed) × (res.error ≡ some e)))

module _ {Args : Type 0} (unmarshal : String → Result Args) (handlers : Handlers Args) where
  pub handle_job-IsResult :
      (job : EnqueuedJob) (res : JobResult)
      → handle_job unmarshal handlers job ≡ some res
      → IsResult job res
  unfolding handle_job run_handler result_of error_to_job_status
  handle_job-IsResult job res h = elim (Bool-cases (exists job.name handlers)) [
    | inl known ↦ go (unmarshal job.payload) (rw known at h)
    | inr unknown ↦ let h' = rw unknown at h in failure "handler not found" (ground arith)
  ]
    where
      failure : (e : Error) → res ≡ result job (some e) failed → IsResult job res
      failure e k = (rw k refl, rw k refl, inr (e, rw k refl, rw k refl))

      finish : (outcome : Outcome) → result_of job outcome ≡ some res → IsResult job res
      finish (returned none) k =
          let same : res ≡ result job none succeeded = ground arith in
          (rw same refl, rw same refl, inl (rw same refl, rw same refl))
      finish (returned (some e)) k = failure e (ground arith)
      finish panicked k = absurd (ground arith)

      go :
          (args : Result Args)
          → run_handler unmarshal handlers job args ≡ some res
          → IsResult job res
      go (err e) k = failure "invalid payload" (ground arith)
      go (ok args) k = finish _ k

settle-success :
    (now : Time) (job : EnqueuedJob) (res : JobResult) (s : Store)
    → res.job_id ≡ job.id
    → res.status ≡ succeeded
    → res.error ≡ none
    → All (IsSettled job res) (process_result none now res s).rows
unfolding process_result mark_success is_valid_transition
settle-success now job res s same e none' = rw e (
    update_where-All (IsSettled job res) (λ r. r.id == res.job_id) _ s.rows
      (λ r hit id. inl (refl, none')) (λ r miss id. absurd (ground arith)))

settle-failure :
    (now : Time) (job : EnqueuedJob) (res : JobResult) (s : Store) {msg : Error}
    → res.job_id ≡ job.id
    → res.attempts ≡ job.attempts + 1
    → res.status ≡ failed
    → res.error ≡ some msg
    → All (IsSettled job res) (process_result none now res s).rows
unfolding process_result mark_failure is_valid_transition
settle-failure now job res s {msg} same count e some' = rw e (
    update_where-All (IsSettled job res) (λ r. r.id == res.job_id) _ s.rows
      (λ r hit id. inr (msg, some', ap (λ o. some (error_text o)) some', ground arith))
      (λ r miss id. absurd (ground arith)))

-- When the result that handleJob sends for a job has been stored without a failure of the database,
-- the job's row has succeeded if the result has no error; else the row has the error, is dead if the
-- job had two attempts or more before, and failed if it had fewer.
pub handle_job-IsSettled :
    {Args : Type 0} (unmarshal : String → Result Args) (handlers : Handlers Args) (now : Time)
    (job : EnqueuedJob) (res : JobResult) (s : Store)
    → handle_job unmarshal handlers job ≡ some res
    → All (IsSettled job res) (process_result none now res s).rows
handle_job-IsSettled unmarshal handlers now job res s h =
    let (same, count, outcome) = handle_job-IsResult unmarshal handlers job res h in
    elim outcome [
      | inl (e, none') ↦ settle-success now job res s same e none'
      | inr (msg, e, some') ↦ settle-failure now job res s same count e some'
    ]
