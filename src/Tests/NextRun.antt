-- ===== src/Tests/NextRun.antt =====
-- The cases of pgk/parser/parser_test.go for CalculateNextRun, in UTC, and the theorems about it.
use go_fire.Base.{◌+◌, ◌-◌, ◌*◌, ◌<◌, ◌≤◌, ◌≡◌, refl, [], ◌∷◌, some, arith}
use go_fire.Text.{codes, split}
use go_fire.Cron.Int.{atoi}
use go_fire.Cron.Parse.{CronExpr, parse_cron}
use go_fire.Cron.Calendar.{
  days_of, month_start, year_start, is_leap, date_of, year_of, month_of, weekday_of,
}
use go_fire.Cron.Search.{contains}
use go_fire.Cron.Clock.{
  Time, minute, hour, day, utc, month_at, day_at, weekday_at, hour_at, minute_at,
  first_of_next_month, add_day,
}
use go_fire.Cron.NextRun.{start, calculate_next_run}
use go_fire.Cron.NextRun.Earliest.{IsEarliest, calculate_next_run-IsEarliest}
use go_fire.Cron.NextRun.Offsets.{east_of_utc}
use go_fire.Cron.NextRun.Future.{lt-calculate_next_run}

-- Midnight of June 21, 2025, is day 739422 of the calendar, counted from 0.
abbrev june_21 : Time
june_21 = 739422 * day

june_21_is_a_date : days_of 2024 6 21 ≡ 739422
unfolding days_of month_start year_start is_leap
june_21_is_a_date = refl

-- 2025-06-21 14:00 is followed by 14:15 under "*/15 14 * * *".
quarter_past :
    calculate_next_run utc (codes "*/15 14 * * *") (june_21 + 14 * hour)
    ≡ some (june_21 + 14 * hour + 15 * minute)
unfolding calculate_next_run split atoi contains month_at day_at weekday_at hour_at minute_at
    first_of_next_month add_day date_of days_of year_of year_start month_of month_start is_leap
    weekday_of
quarter_past = refl

-- 2025-06-21 08:59, a Saturday, is followed by Monday 09:00 under "0 9 * * 1".
next_monday :
    calculate_next_run utc (codes "0 9 * * 1") (june_21 + 8 * hour + 59 * minute)
    ≡ some (june_21 + 2 * day + 9 * hour)
unfolding calculate_next_run split atoi contains month_at day_at weekday_at hour_at minute_at
    first_of_next_month add_day date_of days_of year_of year_start month_of month_start is_leap
    weekday_of
next_monday = refl

-- A text that does not parse runs in an hour.
invalid : calculate_next_run utc (codes "invalid expression") june_21 ≡ some (june_21 + hour)
unfolding calculate_next_run
invalid = refl

-- Four and a half hours east of UTC the jump to the next day lands at 04:30 by the local clock, so
-- that after Friday 23:00 "0 0 * * 6,0" does not run at midnight of Saturday but of Sunday.
east_of_utc_skips :
    calculate_next_run
      (east_of_utc (4 * hour + 30 * minute))
      (codes "0 0 * * 6,0")
      (june_21 - (5 * hour + 30 * minute))
    ≡ some (june_21 + day - (4 * hour + 30 * minute))
unfolding calculate_next_run split atoi contains month_at day_at weekday_at hour_at minute_at
    first_of_next_month add_day date_of days_of year_of year_start month_of month_start is_leap
    weekday_of
east_of_utc_skips = refl

abbrev noon_monday : CronExpr
noon_monday = record {
  minute = 0 ∷ [];
  hour = 12 ∷ [];
  day_of_month =
      1 ∷ 2 ∷ 3 ∷ 4 ∷ 5 ∷ 6 ∷ 7 ∷ 8 ∷ 9 ∷ 10 ∷ 11 ∷ 12 ∷ 13 ∷ 14 ∷ 15 ∷ 16 ∷ 17 ∷ 18 ∷ 19 ∷ 20 ∷ 21
      ∷ 22 ∷ 23 ∷ 24 ∷ 25 ∷ 26 ∷ 27 ∷ 28 ∷ 29 ∷ 30 ∷ 31 ∷ [];
  month = 1 ∷ 2 ∷ 3 ∷ 4 ∷ 5 ∷ 6 ∷ 7 ∷ 8 ∷ 9 ∷ 10 ∷ 11 ∷ 12 ∷ [];
  day_of_week = 1 ∷ [];
}

lt-calculate_next_run_example :
    (t : Time) × (calculate_next_run utc (codes "not a cron") june_21 ≡ some t) × (june_21 < t)
lt-calculate_next_run_example = lt-calculate_next_run utc (codes "not a cron") june_21 (omega arith)

calculate_next_run-IsEarliest_example :
    (r : Time) × (calculate_next_run utc (codes "0 12 * * 1") june_21 ≡ some r)
    × (r ≤ june_21 + 9 * day + 12 * hour)
    × IsEarliest noon_monday june_21 r
unfolding parse_cron split atoi contains month_at day_at weekday_at hour_at minute_at date_of
    days_of year_of year_start month_of month_start is_leap weekday_of start
calculate_next_run-IsEarliest_example =
    calculate_next_run-IsEarliest (codes "0 12 * * 1") noon_monday june_21
      (june_21 + 9 * day + 12 * hour) refl (omega arith) (omega arith) refl refl
