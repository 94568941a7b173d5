-- ===== src/Client/Enqueued.antt =====
-- The worker of enqueued jobs: processDueJobs, handleJob, the result processor and
-- ExecuteJobManually (client/enqueue_job_manager.go). A round of processDueJobs locks the due jobs
-- one after the other and starts a goroutine for each that it has locked. While it waits for the semaphore the
-- others go on: a round is given the calls of the store that are made meanwhile.
pub mod Rounds
pub mod Retry
pub mod Waiting
pub mod Held
pub mod Ripe
pub mod Progress
pub mod Start
pub mod Found
pub mod Lifecycle
use Prim.Native.String.{◌++◌ as append}
use go_fire.Base.{
  ℕ, ◌+◌, Bool, true, false, List, [], ◌∷◌, Option, none, some, String, Error, Result, ok, err,
  if◌then◌else◌,
}
use go_fire.Status.{
  JobStatus, queued, retrying, processing, succeeded, failed, is, is_valid_transition,
}
use go_fire.Store.Sql.{Time}
use go_fire.Store.Page.{PaginationResult}
use go_fire.Store.Enqueued.{
  Row, Store, EnqueuedJob, find_by_id, fetch_due_jobs, lock_job, mark_success, mark_failure,
}
use go_fire.Store.Enqueued.Ops.{Op, run, run_all}
use go_fire.Client.Handlers.{
  Outcome, returned, panicked, Handlers, exists, execute, error_to_job_status,
}

-- types.JobResult, with the fields that handleJob fills.
pub record JobResult : Type 0 where
  pub job_id : ℕ
  pub error : Option Error
  pub attempts : ℕ
  pub max_attempts : ℕ
  pub status : JobStatus

abbrev pub result : EnqueuedJob → Option Error → JobStatus → JobResult
result job error status = record {
  job_id = job.id;
  error = error;
  attempts = job.attempts + 1;
  max_attempts = job.max_attempts;
  status = status;
}

-- The result of the handler's call: none where it panicked.
unfoldable pub result_of : EnqueuedJob → Outcome → Option JobResult
unfolding error_to_job_status
result_of job (returned error) = some (result job error (error_to_job_status error))
result_of job panicked = none

-- `unmarshal` is json.Unmarshal into a slice of values, with its error.
module _ {Args : Type 0} (unmarshal : String → Result Args) where
  unfoldable pub run_handler : Handlers Args → EnqueuedJob → Result Args → Option JobResult
  unfolding result_of
  run_handler handlers job (err e) = some (result job (some "invalid payload") failed)
  run_handler handlers job (ok args) = result_of job (execute job.name args handlers)

  -- None where the handler panics: the deferred function logs it, and no result is sent.
  unfoldable pub handle_job : Handlers Args → EnqueuedJob → Option JobResult
  unfolding run_handler
  handle_job handlers job =
      if exists job.name handlers
      then run_handler handlers job (unmarshal job.payload)
      else some (result job (some "handler not found") failed)

  unfoldable pub execute_found :
      Handlers Args → EnqueuedJob → Result Args → Option JobResult × Result (Unit {0})
  unfolding result_of
  execute_found handlers job (err e) = (none, err (append "invalid payload: " e))
  execute_found handlers job (ok args) = (result_of job (execute job.name args handlers), ok tt)

  -- ExecuteJobManually: the result that it sends, if any, and the error that it returns. Nothing
  -- recovers a panic of the handler, which ends the caller.
  unfoldable pub execute_job_manually :
      Handlers Args → ℕ → Store → Option JobResult × Result (Unit {0})
  unfolding execute_found
  execute_job_manually handlers id s = elim (find_by_id id s) [
    | err e ↦ (none, err (append "job not found: " e))
    | ok job ↦
        if exists job.name handlers
        then execute_found handlers job (unmarshal job.payload)
        else (none, err "handler not found: %!w(<nil>)")
  ]

-- `res.Err.Error()`; a failed result always has an error.
abbrev pub error_text : Option Error → String
error_text none = ""
error_text (some e) = e

-- The switch of the result processor. An error of the store is logged.
unfoldable pub process_result : Option Error → Time → JobResult → Store → Store
process_result fault now res s =
    if is res.status succeeded
    then (if is_valid_transition processing succeeded
        then (mark_success fault now res.job_id s).0
        else s)
    else if is res.status failed
    then (if is_valid_transition processing failed
        then (mark_failure fault res.job_id (error_text res.error) res.attempts res.max_attempts
            s).0
        else s)
    else s

-- `ok, err := LockJob(…); if err != nil || !ok { continue }`.
abbrev pub got : Result Bool → Bool
got (ok b) = b
got (err e) = false

-- What a round meets at one job: the failure of the database at its LockJob, the database's clock, the calls
-- of the store that the other goroutines and instances make before the next job is tried, which are those of
-- the result processor too while the loop waits for the semaphore, and whether the context is cancelled.
pub record Lap : Type 0 where
  pub fault : Option Error
  pub now : Time
  pub meanwhile : List Op
  pub is_cancelled : Bool

-- The loop over the page: the table, and the jobs that are started. A cancelled Acquire ends it, and leaves
-- the job locked.
unfoldable pub start_jobs :
    (EnqueuedJob → Lap) → String → List EnqueuedJob → Store → Store × List EnqueuedJob
unfolding run
start_jobs laps by [] s = (s, [])
start_jobs laps by (job ∷ jobs) s =
    let lap = laps job in
    let locked = lock_job lap.fault lap.now job.id by s in
    let s' = run_all lap.meanwhile locked.0 in
    let rest = start_jobs laps by jobs s' in
    if got locked.1 then (if lap.is_cancelled then (s', []) else (rest.0, job ∷ rest.1)) else rest

-- What the round does with the answer of the fetch: its failure ends the round.
unfoldable pub start_page :
    (EnqueuedJob → Lap)
    → String
    → Result (PaginationResult EnqueuedJob)
    → Store
    → Store × List EnqueuedJob
unfolding start_jobs
start_page laps by (err e) s = (s, [])
start_page laps by (ok page) s = start_jobs laps by page.items s

-- What a round meets: the failure of its fetch, the order in which the database reads rows of one time, the
-- clocks of the worker and of the database, the calls that others make behind the fetch, and its laps.
pub record Round : Type 0 where
  pub fault : Option Error
  pub tie : Row → ℕ
  pub now : Time
  pub db_now : Time
  pub before : List Op
  pub laps : EnqueuedJob → Lap

unfoldable pub process_due_jobs : Round → ℕ → String → Store → Store × List EnqueuedJob
unfolding start_page run
process_due_jobs r batch_size by s =
    start_page r.laps by
      (fetch_due_jobs r.fault r.tie r.db_now 1 batch_size (queued ∷ retrying ∷ []) (some r.now) s)
      (run_all r.before s)
