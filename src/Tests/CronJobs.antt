-- ===== src/Tests/CronJobs.antt =====
-- Runs of the store of cron jobs and of the cron worker, and the theorems about them at concrete
-- inputs.
use go_fire.Base.{
  false, ℕ, ◌+◌, ◌<◌, ◌≡◌, ◌≢◌, refl, true, none, some, [], ◌∷◌, List, String, Option, arith, ok,
  Result, if◌then◌else◌, str_eq, map, All,
}
use go_fire.Text.{codes}
use go_fire.Status.{queued, processing, succeeded}
use go_fire.Store.CronJobs.{
  Row, Store, CronJob, is_due, add_or_update, fetch_due_cron_jobs, lock_job, deactivate, collect,
}
use go_fire.Store.CronJobs.Ops.{
  Op, upsert_op, unlock_op, run, run_all, empty, IsWellFormed, run_all-IsWellFormed,
}
use go_fire.Store.CronJobs.Upsert.{schedule_of, add_or_update-schedule_of}
use go_fire.Store.CronJobs.Locking.{cron_lock_exclusive}
use go_fire.Store.CronJobs.Due.{due_ids}
use go_fire.Cron.Clock.{utc, hour, local, Time}
use go_fire.Cron.NextRun.{calculate_next_run}
use go_fire.Client.Handlers.{
  Outcome, returned, panicked, Handlers, lookup as handler_of, register, register-lookup, list,
}
use go_fire.Client.Cron.{JobResult, execute_job, process_result}
use go_fire.Client.Cron.Rounds.{Round, State, process_cron_jobs, process_cron_jobs-returns}
use go_fire.Client.Cron.Laws.{IsQuiet, process_result-IsQuiet}

abbrev three_calls : List Op
three_calls =
    upsert_op none 10 "mail" 60 "* * * * *" (some "[]")
    ∷ upsert_op none 11 "sms" 70 "*/5 * * * *" (some "[]")
    ∷ upsert_op none 12 "sms" 30 "*/9 * * * *" (some "[1]")
    ∷ []

-- Two jobs, the second rescheduled once.
abbrev two : Store
two = run_all three_calls empty

two-IsWellFormed : IsWellFormed two
two-IsWellFormed = run_all-IsWellFormed three_calls empty (omega arith, tt)

rescheduled : map (λ (r : Row). r.id) two.rows ≡ 1 ∷ 2 ∷ []
unfolding run add_or_update
rescheduled = refl

add_or_update-schedule_of_example :
    ((id : ℕ) × ((add_or_update none 20 "mail" 90 "0 * * * *" (some "[]") two).1 ≡ ok id))
    × ((m : String)
        → schedule_of m (add_or_update none 20 "mail" 90 "0 * * * *" (some "[]") two).0
          ≡ (if str_eq m "mail" then some (some 90, "[]", "0 * * * *") else schedule_of m two))
add_or_update-schedule_of_example = add_or_update-schedule_of 20 "mail" 90 "0 * * * *" "[]" two

abbrev mail_row : Row
mail_row = record {
  id = 1;
  name = "mail";
  status = queued;
  payload = "[]";
  last_error = none;
  locked_by = none;
  locked_at = none;
  created_at = 10;
  updated_at = 10;
  last_run_at = none;
  next_run_at = some 60;
  is_active = true;
  expression = "* * * * *";
}

cron_lock_exclusive_example :
    (lock_job none 4000000000000000 1 "pod b"
      (run_all (unlock_op none 1 ∷ []) (lock_job none 30 1 "pod a" two).0)).1
    ≢ ok true
unfolding lock_job run add_or_update
cron_lock_exclusive_example =
    cron_lock_exclusive none none 30 4000000000000000 1 "pod a" "pod b" two (unlock_op none 1 ∷ [])
      two-IsWellFormed refl (tt, tt)

-- A deactivated job, whose next run is ahead, is due.
deactivated_due : due_ids 20 (deactivate none 1 two).0 ≡ 1 ∷ 2 ∷ []
unfolding deactivate run add_or_update is_due
deactivated_due = refl

-- Handlers whose arguments are the payload.
abbrev no_args : String → Result String
no_args s = ok s

abbrev mailer : Handlers String
mailer = ("mail", (λ args. returned none)) ∷ []

abbrev mail_job : CronJob
mail_job = record {
  id = 1;
  name = "mail";
  payload = "[]";
  status = processing;
  last_error = none;
  locked_by = some "pod a";
  locked_at = some 30;
  created_at = 10;
  last_run_at = none;
  next_run_at = 60;
  is_active = true;
  expression = "never";
}

-- A text that is no expression runs again in an hour.
abbrev mail_result : JobResult
mail_result = record {
  job_id = 1;
  error = none;
  status = succeeded;
  ran_at = 100;
  next_run = 100 + hour;
}

process_result-IsQuiet_example :
    (100 < mail_result.next_run)
    × (calculate_next_run utc (codes "never") 100 ≡ some mail_result.next_run)
    × All
        (IsQuiet 1 (local utc mail_result.next_run))
        (process_result utc none none mail_result two).rows
    × ((t : Time)
        → t < mail_result.next_run
        → All
            (λ r. r.id ≡ 1 → is_due (local utc t) r ≡ false)
            (process_result utc none none mail_result two).rows)
unfolding execute_job calculate_next_run go_fire.Client.Handlers.exists
    go_fire.Client.Handlers.execute
process_result-IsQuiet_example =
    process_result-IsQuiet no_args mailer utc 100 mail_job two mail_result (omega arith) refl

-- Pages of one job each, at time 20: both jobs are due because they are queued.
abbrev one_by_one : Round
one_by_one = record {
  by = "pod a";
  batch_size = 1;
  clock = λ page. 20;
  fetch_fault = λ page. none;
  lock_fault = λ page job. none;
}

abbrev started_by : Option State → List CronJob
started_by none = []
started_by (some st) = st.1

-- The first page locks "sms", which is not due any more then, so that "mail" moves to the first page
-- and the second is empty.
one_round : map (λ (job : CronJob). job.id) (started_by (process_cron_jobs one_by_one two)) ≡ 2 ∷ []
unfolding process_cron_jobs run add_or_update lock_job fetch_due_cron_jobs collect
one_round = refl

process_cron_jobs-returns_example : (st : State) × (process_cron_jobs one_by_one two ≡ some st)
process_cron_jobs-returns_example = process_cron_jobs-returns one_by_one two (omega arith)
