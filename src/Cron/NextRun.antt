-- ===== src/Cron/NextRun.antt =====
-- CalculateNextRun (pgk/parser/cron_expression_parser.go).
pub mod Steps
pub mod Offsets
pub mod Future
pub mod Earliest
use go_fire.Base.{
  ℕ, zero, suc, ◌+◌, ◌-◌, ◌*◌, Bool, not, ◌&&◌, ◌||◌, Option, none, some, if◌then◌else◌,
}
use go_fire.Text.{Text}
use go_fire.Cron.Field.{Parsed, ok, err, hang}
use go_fire.Cron.Parse.{CronExpr, parse_cron}
use go_fire.Cron.Search.{contains}
use go_fire.Cron.Clock.{
  Time, minute, hour, day, Location, month_at, day_at, weekday_at, hour_at, minute_at,
  first_of_next_month, add_day, truncate,
}

module _ (loc : Location) (e : CronExpr) where
  -- One round of the loop: none where the source returns `t`, else the time of the next round.
  unfoldable pub round : Time → Option Time
  round t =
      if not (contains e.month (month_at loc t))
      then some (truncate (first_of_next_month loc t) day)
      else if not (contains e.day_of_month (day_at loc t))
          || not (contains e.day_of_week (weekday_at loc t))
      then some (truncate (add_day loc t) day)
      else if not (contains e.hour (hour_at loc t))
      then some (t + (hour - minute_at loc t * minute))
      else if contains e.minute (minute_at loc t)
      then none
      else some (t + minute)

  -- The loop, with the rounds left: none if they run out.
  unfoldable pub find_run : ℕ → Time → Option Time
  unfolding round
  find_run zero t = none
  find_run (suc rounds) t = elim (round t) [ none ↦ some t | some t' ↦ find_run rounds t' ]

-- `for i := 0; i < 525600; i++`.
abbrev pub max_rounds : ℕ
max_rounds = 525600

-- The minute behind `from`, at which the search starts.
unfoldable pub start : Time → Time
start from = truncate (from + minute) minute

-- `return from.Add(time.Hour)`, if the search finds nothing.
abbrev pub or_hour : Time → Option Time → Time
or_hour from none = from + hour
or_hour from (some t) = t

unfoldable pub next_run_of : Location → Parsed CronExpr → Time → Option Time
unfolding find_run start
next_run_of loc (ok e) from = some (or_hour from (find_run loc e max_rounds (start from)))
next_run_of loc (err x) from = some (from + hour)
next_run_of loc hang from = none

-- None only if a loop of the parser does not end.
unfoldable pub calculate_next_run : Location → Text → Time → Option Time
unfolding next_run_of parse_cron
calculate_next_run loc expr from = next_run_of loc (parse_cron expr) from
