-- ===== src/Client/JobManager.antt =====
-- The JobManager (client/job_manager.go): enqueuing a job in the table or in the queue of the message
-- broker, and scheduling cron jobs. JSON is a parameter, as a codec of messages; the queue is the list
-- of the messages that the broker has taken.
pub mod Laws
pub mod Schedules
use Prim.Native.String.{◌++◌ as append}
use go_fire.Base.{
  ℕ, Bool, List, [], ◌∷◌, ◌++◌, Option, none, some, String, Error, Result, ok, err, if◌then◌else◌,
}
use go_fire.Text.{codes}
use go_fire.Store.Sql.{Time}
use go_fire.Store.Enqueued.{Job, EnqueuedJob, insert, remove_by_id, find_by_id}
use go_fire.Store.Enqueued
use go_fire.Store.CronJobs.{add_or_update, activate, deactivate}
use go_fire.Store.CronJobs
use go_fire.Cron.Clock.{Location, local}
use go_fire.Cron.NextRun.{calculate_next_run}

-- json.Marshal and json.Unmarshal on types.Job; none where Unmarshal returns an error.
pub record Json : Type 0 where
  pub marshal : Job → Result String
  pub unmarshal : String → Option Job

pub record World : Type 0 where
  pub jobs : Enqueued.Store
  pub queue : List String

-- Publish, for what Marshal has returned. The id of the job is not known yet.
abbrev pub publish : Option Error → Result String → World → World × Result ℕ
publish fault (err e) w = (w, err (append "failed to marshal job: " e))
publish (some e) (ok payload) w = (w, err (append "failed to publish job to broker: " e))
publish none (ok payload) w = (record w { queue = w.queue ++ payload ∷ [] }, ok 0)

abbrev pub insert_job :
    Option Error → Time → String → Time → Option String → World → World × Result ℕ
insert_job fault now name at args w =
    let (s, id) = insert fault now name at args w.jobs in (record w { jobs = s }, id)

-- The first argument is the field writeJobsToQueue. The failure is the database's or the broker's.
unfoldable pub enqueue :
    Bool → Json → Option Error → Time → String → Time → Option String → World → World × Result ℕ
unfolding insert
enqueue to_queue json fault now name at args w =
    if to_queue
    then publish fault (json.marshal (record { name = name; args = args; scheduled_at = at })) w
    else insert_job fault now name at args w

unfoldable pub remove_enqueue :
    Option Error → ℕ → Enqueued.Store → Enqueued.Store × Result (Unit {0})
unfolding remove_by_id
remove_enqueue fault id s = remove_by_id fault id s

unfoldable pub find_enqueue : ℕ → Enqueued.Store → Result EnqueuedJob
unfolding find_by_id
find_enqueue id s = find_by_id id s

-- The clock when the call is made, what the database's session shows then, and the failure of the database.
pub record Call : Type 0 where
  pub now : Time
  pub db_now : Time
  pub fault : Option Error

-- For the next run that CalculateNextRun gives; none where it does not return. The column has no zone, and
-- takes what the process's clock shows at that time.
abbrev pub schedule_at :
    Location
    → Call
    → String
    → String
    → Option String
    → CronJobs.Store
    → Option Time
    → Option (CronJobs.Store × Result ℕ)
schedule_at loc c name expr args s none = none
schedule_at loc c name expr args s (some at) =
    some (add_or_update c.fault c.db_now name (local loc at) expr args s)

-- `addOrUpdate`, which Schedule calls.
unfoldable pub schedule :
    Location
    → Call
    → String
    → String
    → Option String
    → CronJobs.Store
    → Option (CronJobs.Store × Result ℕ)
unfolding calculate_next_run add_or_update
schedule loc c name expr args s =
    schedule_at loc c name expr args s (calculate_next_run loc (codes expr) c.now)

-- The second call, for what the first has returned.
abbrev pub schedule_again :
    Location
    → Call
    → String
    → String
    → Option String
    → Option (CronJobs.Store × Result ℕ)
    → Option (CronJobs.Store × Result ℕ)
unfolding schedule
schedule_again loc c name expr args none = none
schedule_again loc c name expr args (some (s, err e)) = some (s, err e)
schedule_again loc c name expr args (some (s, ok id)) = schedule loc c name expr args s

-- ScheduleEveryMinute and its like add the job and then call Schedule, which adds it once more.
unfoldable pub schedule_every :
    String
    → Location
    → Call
    → Call
    → String
    → Option String
    → CronJobs.Store
    → Option (CronJobs.Store × Result ℕ)
unfolding schedule
schedule_every expr loc c c' name args s =
    schedule_again loc c' name expr args (schedule loc c name expr args s)

abbrev pub every_minute : String
every_minute = "* * * * *"

abbrev pub every_hour : String
every_hour = "0 * * * *"

abbrev pub every_day : String
every_day = "0 0 * * *"

abbrev pub every_week : String
every_week = "0 0 * * 0"

abbrev pub every_month : String
every_month = "0 0 1 * *"

abbrev pub every_year : String
every_year = "0 0 1 1 *"

-- What Activate and DeActivate return is dropped.
unfoldable pub activate_schedule : Option Error → ℕ → CronJobs.Store → CronJobs.Store
unfolding activate
activate_schedule fault id s = (activate fault id s).0

unfoldable pub deactivate_schedule : Option Error → ℕ → CronJobs.Store → CronJobs.Store
unfolding deactivate
deactivate_schedule fault id s = (deactivate fault id s).0
