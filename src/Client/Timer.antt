-- ===== src/Client/Timer.antt =====
-- The timers of the JobManager (client/job_manager.go): runWithTimerInternal, which both
-- ScheduleInvokeWithTimer and ScheduleFuncWithTimer call, and the function that the former runs. The
-- clock is never set back. What a run does is known by its outcome; its error is only logged.
pub mod Laws
use Prim.Native.String.{◌++◌ as append}
use go_fire.Base.{
  ℕ, ◌+◌, ◌-◌, Bool, List, [], ◌∷◌, Option, none, some, String, Error, if◌then◌else◌, leb,
}
use go_fire.Text.{Text}
use go_fire.Cron.Clock.{Time, Location}
use go_fire.Cron.NextRun.{calculate_next_run}
use go_fire.Client.Handlers.{Outcome, returned, Handlers, exists, execute}

-- What a round of the loop meets: the time since the last run ended or the loop began, with the run
-- itself; the time between its two looks at the clock; whether the context is cancelled before the
-- timer fires; and how late the timer is.
pub record Round : Type 0 where
  pub pause : Time
  pub gap : Time
  pub cancelled : Bool
  pub late : Time

-- A run of the function: the time for which it was calculated, and the time at which it begins.
pub record Ran : Type 0 where
  pub slot : Time
  pub at : Time

-- The runs in their order, and the error that the loop returns if it has returned.
abbrev pub Log : Type 0
Log = List Ran × Option Error

-- `duration <= 0`: it runs at once; else it waits for the timer or the context. None where the context
-- is cancelled.
unfoldable pub wait : Time → Round → Time → Option Ran
wait clock r next =
    let now = clock + r.pause + r.gap in
    if leb next now
    then some (record { slot = next; at = now })
    else if r.cancelled
    then none
    else some (record { slot = next; at = next + r.late })

module _ (loc : Location) (expression : Text) where
  -- The time that the round calculates.
  unfoldable pub next_of : Time → Round → Option Time
  unfolding calculate_next_run
  next_of clock r = calculate_next_run loc expression (clock + r.pause)

  -- The loop, for the rounds that it meets, from a time on. Where CalculateNextRun does not return, the
  -- loop is in that round for ever.
  unfoldable pub run_with_timer_internal : List Round → Time → Log
  unfolding next_of wait
  run_with_timer_internal [] clock = ([], none)
  run_with_timer_internal (r ∷ rounds) clock = elim (next_of clock r) [
    | none ↦ ([], none)
    | some next ↦ elim (wait clock r next) [
      | none ↦ ([], some "context canceled")
      | some ran ↦ let (runs, error) = run_with_timer_internal rounds ran.at in (ran ∷ runs, error)
    ]
  ]

-- The function that ScheduleInvokeWithTimer runs.
unfoldable pub run_job : {Args : Type 0} → Handlers Args → String → Args → Outcome
unfolding exists execute
run_job handlers job_name args =
    if exists job_name handlers
    then execute job_name args handlers
    else returned (some (append "handler for '" (append job_name "' not found")))
