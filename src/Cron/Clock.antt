-- ===== src/Cron/Clock.antt =====
-- Points in time, as Go's package time computes with them. A time is the number of nanoseconds
-- since the start of the year 1 in UTC, and a location is a fixed offset from UTC.
use go_fire.Base.{ℕ, ◌+◌, ◌-◌, ◌*◌, ◌/◌, ◌%◌}
use go_fire.Cron.Calendar.{date_of, days_of, weekday_of}

abbrev pub Time : Type 0
Time = ℕ

abbrev pub minute : Time
minute = 60000000000

abbrev pub hour : Time
hour = 3600000000000

abbrev pub day : Time
day = 86400000000000

-- The offset east of UTC, or west of it.
pub record Location : Type 0 where
  pub east : Time
  pub west : Time

abbrev pub utc : Location
utc = record { east = 0; west = 0 }

-- What a clock in the location shows, as nanoseconds since the start of its year 1.
abbrev pub local : Location → Time → Time
local loc t = t + loc.east - loc.west

-- The time at which a clock in the location shows `l`.
abbrev pub absolute : Location → Time → Time
absolute loc l = l + loc.west - loc.east

module _ (loc : Location) where
  unfoldable pub month_at : Time → ℕ
  month_at t = (date_of (local loc t / day)).month

  unfoldable pub day_at : Time → ℕ
  day_at t = (date_of (local loc t / day)).day

  unfoldable pub weekday_at : Time → ℕ
  weekday_at t = weekday_of (local loc t / day)

  unfoldable pub hour_at : Time → ℕ
  hour_at t = local loc t % day / hour

  unfoldable pub minute_at : Time → ℕ
  minute_at t = local loc t % hour / minute

  -- `t.AddDate(0, 1, -t.Day()+1)`: the first of the next month, at the same time of the day.
  unfoldable pub first_of_next_month : Time → Time
  first_of_next_month t =
      let d = date_of (local loc t / day) in
      absolute loc (days_of d.year (d.month + 1) (d.day + 1 - d.day) * day + local loc t % day)

  -- `t.AddDate(0, 0, 1)`.
  unfoldable pub add_day : Time → Time
  add_day t =
      let d = date_of (local loc t / day) in
      absolute loc (days_of d.year d.month (d.day + 1) * day + local loc t % day)

-- `t.Truncate(d)` counts from the start of the year 1 in UTC.
abbrev pub truncate : Time → Time → Time
truncate t d = t - t % d
