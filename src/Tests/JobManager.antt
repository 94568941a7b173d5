-- ===== src/Tests/JobManager.antt =====
-- Runs of the job manager, and the theorems about it at concrete inputs.
use go_fire.Base.{
  ℕ, ◌+◌, ◌*◌, ◌≡◌, refl, true, false, List, [], ◌∷◌, Option, none, some, String, Result, ok, err,
  All, find?,
}
use go_fire.Text.{split}
use go_fire.Store.Enqueued.{Job, Store, insert}
use go_fire.Store.CronJobs.{Row, named, is_due, add_or_update}
use go_fire.Store.CronJobs
use go_fire.Cron.Int.{atoi}
use go_fire.Cron.Calendar.{
  days_of, month_start, year_start, is_leap, date_of, year_of, month_of, weekday_of,
}
use go_fire.Cron.Search.{contains}
use go_fire.Cron.Clock.{
  Time, minute, hour, day, utc, month_at, day_at, weekday_at, hour_at, minute_at,
  first_of_next_month, add_day, local,
}
use go_fire.Cron.NextRun.{calculate_next_run}
use go_fire.Client.Queue.{sync_worker, closed}
use go_fire.Client.Queue.Laws.{stored_jobs}
use go_fire.Client.JobManager.{Json, World, enqueue, schedule}
use go_fire.Client.JobManager.Laws.{RoundTrips, enqueue_all, delivered, enqueue-modes}
use go_fire.Client.JobManager.Schedules.{schedule-due}

abbrev payload_of : Option String → Result String
payload_of none = err "unsupported"
payload_of (some args) = ok args

-- A codec for the jobs "mail" at 50: the message has the arguments.
abbrev args_only : Json
args_only = record {
  marshal = λ job. payload_of job.args;
  unmarshal = λ payload. some (record { name = "mail"; args = some payload; scheduled_at = 50 });
}

abbrev mails : List Job
mails =
    record { name = "mail"; args = some "[1]"; scheduled_at = 50 }
    ∷ record { name = "mail"; args = some "[2]"; scheduled_at = 50 }
    ∷ []

mails-RoundTrips : All (RoundTrips args_only) mails
mails-RoundTrips = (("[1]", refl, refl, ("[1]", refl)), (("[2]", refl, refl, ("[2]", refl)), tt))

abbrev no_jobs : Store
no_jobs = record { rows = []; next_id = 1 }

abbrev start_world : World
start_world = record { jobs = no_jobs; queue = [] }

queue_mode :
    ((enqueue true args_only none 7 "mail" 50 (some "[1]") start_world).1 ≡ ok 0)
    × ((enqueue false args_only none 7 "mail" 50 (some "[1]") start_world).1 ≡ ok 1)
unfolding enqueue insert
queue_mode = (refl, refl)

enqueue-modes_example :
    stored_jobs
      (sync_worker
        (delivered args_only 9 (enqueue_all true args_only 7 mails start_world).queue)
        (closed none 9)
        (enqueue_all true args_only 7 mails start_world).jobs).1
    ≡ stored_jobs (enqueue_all false args_only 7 mails start_world).jobs
enqueue-modes_example = enqueue-modes args_only 7 9 mails no_jobs mails-RoundTrips

abbrev no_crons : CronJobs.Store
no_crons = record { rows = []; next_id = 1 }

-- Midnight of June 21, 2025.
abbrev saturday : Time
saturday = 739422 * day

abbrev monday : Time
monday = saturday + 2 * day + 9 * hour

-- The report of each Monday at nine, scheduled on a Saturday, is due a minute later.
schedule-due_example :
    (s' : CronJobs.Store) × (id : ℕ) × (r : Row) × (schedule utc
        (record { now = saturday; db_now = saturday; fault = none })
        "report"
        "0 9 * * 1"
        (some "[]")
        no_crons
      ≡ some (s', ok id))
    × (find? (named "report") s'.rows ≡ some r)
    × (r.next_run_at ≡ some (local utc monday))
    × (is_due (saturday + minute) r ≡ true)
unfolding calculate_next_run split atoi contains month_at day_at weekday_at hour_at minute_at
    first_of_next_month add_day date_of days_of year_of year_start month_of month_start is_leap
    weekday_of
schedule-due_example =
    schedule-due utc saturday saturday (saturday + minute) monday "report" "0 9 * * 1" "[]" no_crons
      refl refl
