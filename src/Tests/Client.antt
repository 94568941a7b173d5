-- ===== src/Tests/Client.antt =====
-- Runs of the workers, and the theorems about them at concrete inputs.
use go_fire.Base.{
  ◌<◌, ◌≡◌, ◌≢◌, ◌⊎◌, false, arith, refl, none, some, [], ◌∷◌, List, String, ok, Result, map,
  length, All, ◌++◌,
}
use go_fire.Status.{processing, failed}
use go_fire.Store.Enqueued.{Row, Store, EnqueuedJob, Job, insert, lock_job}
use go_fire.Store.Enqueued.Bulk.{bulk_insert}
use go_fire.Store.Enqueued.Ops.{
  insert_op, success_op, run, run_all, empty, IsWellFormed, reachable-IsWellFormed,
}
use go_fire.Store.Enqueued.Locking.{IsHeld}
use go_fire.Client.Enqueued.{JobResult, Round, process_due_jobs}
use go_fire.Client.Enqueued.Held.{AreDistinct, process_due_jobs-IsHeld}
use go_fire.Client.Queue.{Event, message, tick, closed, cancelled, handle_all, sync_worker}
use go_fire.Client.Queue.Laws.{
  sent, stored_jobs, jobs_of, sync_worker_complete, sync_worker_cancelled,
}

abbrev one : Store
one = run_all (insert_op none 10 "mail" 20 (some "[]") ∷ []) empty

one-IsWellFormed : IsWellFormed one
one-IsWellFormed = reachable-IsWellFormed (insert_op none 10 "mail" 20 (some "[]") ∷ [])

-- The first fetch; while the loop waits for the semaphore, the result of another job comes back and a job is
-- inserted.
abbrev busy : Round
busy = record {
  fault = none;
  tie = λ r. 0;
  now = 50;
  db_now = 60;
  before = [];
  laps = λ job. record {
    fault = none;
    now = 61;
    meanwhile = success_op none 62 7 ∷ insert_op none 62 "sms" 63 (some "[]") ∷ [];
    is_cancelled = false;
  };
}

process_due_jobs-IsHeld_example :
    let x = process_due_jobs busy 10 "pod a" one in
    AreDistinct x.1 × All (λ job. (job.id ≢ 1) ⊎ IsHeld 1 "pod a" x.0) x.1
process_due_jobs-IsHeld_example =
    process_due_jobs-IsHeld busy 10 "pod a" one 1 one-IsWellFormed
      (λ job. ((λ e. ground (arith, e)), (tt, tt)))

-- The round starts the job.
started : map (λ (job : EnqueuedJob). job.id) (process_due_jobs busy 10 "pod a" one).1 ≡ 1 ∷ []
unfolding process_due_jobs run insert lock_job go_fire.Store.Enqueued.fetch_due_jobs
    go_fire.Store.Enqueued.mark_success
started = refl

abbrev no_args : String → Result String
no_args s = ok s

abbrev mail_job : EnqueuedJob
mail_job = record {
  id = 1;
  name = "mail";
  payload = "[]";
  status = processing;
  attempts = 1;
  max_attempts = 3;
  scheduled_at = 20;
  executed_at = some 60;
  finished_at = some 60;
  last_error = none;
  locked_by = some "pod a";
  locked_at = some 60;
  created_at = 10;
}

abbrev refused : JobResult
refused = record {
  job_id = 1;
  error = some "refused";
  attempts = 2;
  max_attempts = 3;
  status = failed;
}

abbrev sms : Job
sms = record { name = "sms"; args = some "[1]"; scheduled_at = 15 }

abbrev events : List Event
events =
    message none 11 (some sms)
    ∷ message none 12 none
    ∷ tick none 13
    ∷ message none 14 (some sms)
    ∷ []

sync_worker_complete_example :
    (stored_jobs (sync_worker events (closed none 15) one).1
      ≡ stored_jobs one ++ map sent (jobs_of events))
    × ((sync_worker events (closed none 15) one).0 ≡ [])
sync_worker_complete_example =
    sync_worker_complete events 15 one (refl, (refl, (refl, (refl, tt))))
      (("[1]", refl), (("[1]", refl), tt))

sync_worker_cancelled_example :
    (stored_jobs (sync_worker events (cancelled 15) one).1
        ++ map sent (handle_all events ([], one)).0
      ≡ stored_jobs one ++ map sent (jobs_of events))
    × (length (handle_all events ([], one)).0 < 1000)
    × ((sync_worker events (cancelled 15) one).0 ≡ [])
sync_worker_cancelled_example =
    sync_worker_cancelled events 15 one (refl, (refl, (refl, (refl, tt))))
      (("[1]", refl), (("[1]", refl), tt))

-- The second message is lost when the context is cancelled.
one_lost :
    stored_jobs (sync_worker events (cancelled 15) one).1
    ≡ ("mail", some "[]", 20) ∷ ("sms", some "[1]", 15) ∷ []
unfolding sync_worker bulk_insert run insert
one_lost = refl
