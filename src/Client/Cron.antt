-- ===== src/Client/Cron.antt =====
-- A round of the cron worker for one job: executeJob and the result processor
-- (client/cron_job_manager.go). Where the handler panics no result is sent: nothing recovers, and
-- the program ends.
pub mod Laws
pub mod Rounds
use Prim.Native.String.{◌++◌ as append}
use go_fire.Base.{ℕ, Option, none, some, String, Error, Result, ok, err, if◌then◌else◌}
use go_fire.Text.{codes}
use go_fire.Status.{JobStatus, processing, succeeded, failed, is, is_valid_transition}
use go_fire.Store.Sql.{Time}
use go_fire.Cron.Clock.{Location, local}
use go_fire.Cron.NextRun.{calculate_next_run}
use go_fire.Store.CronJobs.{Store, CronJob, mark_success, mark_failure, update_job_run_times}
use go_fire.Client.Handlers.{
  Outcome, returned, panicked, Handlers, exists, execute, error_to_job_status,
}

-- types.JobResult, with the fields that executeJob fills.
pub record JobResult : Type 0 where
  pub job_id : ℕ
  pub error : Option Error
  pub status : JobStatus
  pub ran_at : Time
  pub next_run : Time

abbrev pub result : CronJob → Time → Time → Option Error → JobStatus → JobResult
result job now next error status = record {
  job_id = job.id;
  error = error;
  status = status;
  ran_at = now;
  next_run = next;
}

-- The result of the handler's call: none where it panicked.
unfoldable pub result_of : CronJob → Time → Time → Outcome → Option JobResult
unfolding error_to_job_status
result_of job now next (returned error) =
    some (result job now next error (error_to_job_status error))
result_of job now next panicked = none

-- `unmarshal` is json.Unmarshal into a slice of values, with its error.
module _ {Args : Type 0} (unmarshal : String → Result Args) where
  -- The call of the handler, for the arguments that Unmarshal gives.
  unfoldable pub run_handler :
      Handlers Args → CronJob → Time → Time → Result Args → Option JobResult
  unfolding result_of
  run_handler handlers job now next (err e) =
      some (result job now next (some (append "invalid payload: " e)) failed)
  run_handler handlers job now next (ok args) =
      result_of job now next (execute job.name args handlers)

  -- executeJob, for the next run that CalculateNextRun gives.
  unfoldable pub execute_at : Handlers Args → CronJob → Time → Time → Option JobResult
  unfolding run_handler
  execute_at handlers job now next =
      if exists job.name handlers
      then run_handler handlers job now next (unmarshal job.payload)
      else some (result job now next (some "handler not found") failed)

  unfoldable pub execute_job : Location → Handlers Args → Time → CronJob → Option JobResult
  unfolding execute_at
  execute_job loc handlers now job = elim (calculate_next_run loc (codes job.expression) now) [
    | none ↦ none
    | some next ↦ execute_at handlers job now next
  ]

-- `res.Err.Error()`; a failed result always has an error.
abbrev pub error_text : Option Error → String
error_text none = ""
error_text (some e) = e

-- The switch of the result processor. An error of the store is logged.
unfoldable pub mark_result : Option Error → JobResult → Store → Store
mark_result fault res s =
    if is res.status succeeded
    then (if is_valid_transition processing succeeded
        then (mark_success fault res.job_id s).0
        else s)
    else if is res.status failed
    then (if is_valid_transition processing failed
        then (mark_failure fault res.job_id (error_text res.error) s).0
        else s)
    else s

-- The driver sends a time as the process's clock shows it, with its offset, which PostgreSQL leaves aside
-- for a column without a time zone.
unfoldable pub process_result : Location → Option Error → Option Error → JobResult → Store → Store
unfolding mark_result
process_result loc fault fault' res s =
    (update_job_run_times fault' res.job_id (local loc res.ran_at) (local loc res.next_run)
      (mark_result fault res s)).0
