-- ===== src/Cron/Calendar.antt =====
-- The Gregorian calendar, as Go's package time counts it. Day 0 is January 1 of the year 1, a
-- Monday; years are counted from 0 here, so that year `y` is the year `y + 1` of the calendar.
pub mod Laws
use go_fire.Base.{
  ℕ, zero, suc, ◌+◌, ◌-◌, ◌*◌, ◌/◌, ◌%◌, Bool, not, ◌&&◌, ◌||◌, if◌then◌else◌, ltb, leb, ◌==◌,
}

unfoldable pub is_leap : ℕ → Bool
is_leap y = (y + 1) % 4 == 0 && (not ((y + 1) % 100 == 0) || (y + 1) % 400 == 0)

-- 1 in a leap year, else 0.
abbrev pub leap_day : ℕ → ℕ
leap_day y = if is_leap y then 1 else 0

-- The first day of a year.
unfoldable pub year_start : ℕ → ℕ
year_start y = 365 * y + y / 4 - y / 100 + y / 400

-- The year of a day: whole periods of 400, 100, 4 and 1 years, where the last year of the longer
-- period has the extra day.
unfoldable pub year_of : ℕ → ℕ
year_of d =
    let n400 = d / 146097 in
    let d400 = d % 146097 in
    let n100 = d400 / 36524 - d400 / 36524 / 4 in
    let d100 = d400 - 36524 * n100 in
    let n4 = d100 / 1461 in
    let d4 = d100 % 1461 in
    let n1 = d4 / 365 - d4 / 365 / 4 in 400 * n400 + 100 * n100 + 4 * n4 + n1

-- The first day of month `m`, from 0, in a year whose leap day count is `l`; month 12 is the end.
unfoldable pub month_start : ℕ → ℕ → ℕ
month_start l m =
    if m == 0
    then 0
    else if m == 1
    then 31
    else if m == 2
    then 59 + l
    else if m == 3
    then 90 + l
    else if m == 4
    then 120 + l
    else if m == 5
    then 151 + l
    else if m == 6
    then 181 + l
    else if m == 7
    then 212 + l
    else if m == 8
    then 243 + l
    else if m == 9
    then 273 + l
    else if m == 10
    then 304 + l
    else if m == 11
    then 334 + l
    else 365 + l

-- The month, from 0, of a day of the year.
unfoldable pub month_of : ℕ → ℕ → ℕ
month_of l n =
    if ltb n 31
    then 0
    else if ltb n (59 + l)
    then 1
    else if ltb n (90 + l)
    then 2
    else if ltb n (120 + l)
    then 3
    else if ltb n (151 + l)
    then 4
    else if ltb n (181 + l)
    then 5
    else if ltb n (212 + l)
    then 6
    else if ltb n (243 + l)
    then 7
    else if ltb n (273 + l)
    then 8
    else if ltb n (304 + l)
    then 9
    else if ltb n (334 + l)
    then 10
    else 11

-- A date: the year from 0, the month from 1 to 12, the day from 1 to 31.
pub record Date : Type 0 where
  pub year : ℕ
  pub month : ℕ
  pub day : ℕ

unfoldable pub date_of : ℕ → Date
date_of d =
    let y = year_of d in
    let n = d - year_start y in
    let m = month_of (leap_day y) n in
    record { year = y; month = m + 1; day = n - month_start (leap_day y) m + 1 }

-- The day of a date, as `time.Date` counts it: months above 12 run into the next years.
unfoldable pub days_of : ℕ → ℕ → ℕ → ℕ
days_of y m d =
    let y' = y + (m - 1) / 12 in year_start y' + month_start (leap_day y') ((m - 1) % 12) + (d - 1)

-- `time.Weekday`, Sunday being 0.
unfoldable pub weekday_of : ℕ → ℕ
weekday_of d = (d + 1) % 7
