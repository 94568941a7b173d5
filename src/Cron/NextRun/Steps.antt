-- ===== src/Cron/NextRun/Steps.antt =====
-- One round of the loop of CalculateNextRun: it moves on, and in UTC it passes over no match.
use go_fire.Base.{
  ℕ, suc, ◌+◌, ◌-◌, ◌*◌, ◌/◌, ◌%◌, ◌≤◌, ◌<◌, ◌≡◌, refl, Bool, true, false, ◌&&◌, none, some, arith,
  ap,
}
use go_fire.Cron.Parse.{CronExpr}
use go_fire.Cron.Search.{contains}
use go_fire.Cron.Calendar.{date_of, days_of, weekday_of}
use go_fire.Cron.Calendar.Laws.{days_of-date_of, lt-next_month, month_stays}
use go_fire.Cron.Clock.{
  Time, minute, hour, day, Location, utc, local, absolute, month_at, day_at, weekday_at, hour_at,
  minute_at, first_of_next_month, add_day, truncate,
}
use go_fire.Cron.NextRun.{round, find_run}

pred_day : (k : ℕ) → k + 1 - k ≡ 1
pred_day k = omega arith

first_of_next_month_lem :
    (loc : Location) (t : Time)
    → first_of_next_month loc t
      ≡ absolute loc (
          days_of (date_of (local loc t / day)).year ((date_of (local loc t / day)).month + 1) 1
            * day
          + local loc t % day)
unfolding first_of_next_month
first_of_next_month_lem loc t =
    let d = date_of (local loc t / day) in
    ap (λ k. absolute loc (days_of d.year (d.month + 1) k * day + local loc t % day))
      (pred_day d.day)

pub add_day_lem :
    (loc : Location) (t : Time)
    → add_day loc t ≡ absolute loc ((local loc t / day + 1) * day + local loc t % day)
unfolding add_day
add_day_lem loc t =
    ap (λ k. absolute loc (k * day + local loc t % day)) (days_of-date_of (local loc t / day) 1)

-- In a location whose clock does not stand before the year 1, both jumps go ahead by a day or more.
lt-month_jump :
    (loc : Location) (t : Time) → loc.west ≤ t → t < truncate (first_of_next_month loc t) day
lt-month_jump loc t h =
    omega (arith, first_of_next_month_lem loc t, lt-next_month (local loc t / day))

lt-day_jump : (loc : Location) (t : Time) → loc.west ≤ t → t < truncate (add_day loc t) day
lt-day_jump loc t h = omega (arith, add_day_lem loc t)

minute_at-lt : (loc : Location) (t : Time) → minute_at loc t < 60
unfolding minute_at
minute_at-lt loc t = omega arith

-- Every round that does not return moves on.
pub lt-round :
    (loc : Location) (e : CronExpr) (t : Time) {t' : Time}
    → loc.west ≤ t
    → round loc e t ≡ some t'
    → t < t'
unfolding round
lt-round loc e t h k =
    ground (arith, lt-month_jump loc t h, lt-day_jump loc t h, minute_at-lt loc t)

-- The five tests of the expression at a time.
abbrev pub matches : Location → CronExpr → Time → Bool
matches loc e t =
    contains e.month (month_at loc t)
    && (contains e.day_of_month (day_at loc t)
        && (contains e.day_of_week (weekday_at loc t)
            && (contains e.hour (hour_at loc t) && contains e.minute (minute_at loc t))))

-- Where a round returns, the expression matches, and the other way round.
pub round-none :
    (loc : Location) (e : CronExpr) (t : Time) → round loc e t ≡ none → matches loc e t ≡ true
unfolding round
round-none loc e t h = ground arith

same_month :
    (t u : Time)
    → t ≤ u
    → u < truncate (first_of_next_month utc t) day
    → month_at utc u ≡ month_at utc t
unfolding month_at
same_month t u h k =
    month_stays (local utc t / day) (local utc u / day) (omega arith)
      (omega (arith, first_of_next_month_lem utc t))

same_day :
    (t u : Time) → t ≤ u → u < truncate (add_day utc t) day → local utc u / day ≡ local utc t / day
same_day t u h k = omega (arith, add_day_lem utc t)

same_hour :
    (t u : Time)
    → t % minute ≡ 0
    → t ≤ u
    → u < t + (hour - minute_at utc t * minute)
    → hour_at utc u ≡ hour_at utc t
unfolding hour_at minute_at
same_hour t u z h k = omega arith

same_day_parts :
    (t u : Time)
    → t ≤ u
    → u < truncate (add_day utc t) day
    → (day_at utc u ≡ day_at utc t) × (weekday_at utc u ≡ weekday_at utc t)
unfolding day_at weekday_at
same_day_parts t u h k = let e = same_day t u h k in (ap (λ d. (date_of d).day) e, ap weekday_of e)

same_minute :
    (t u : Time)
    → t % minute ≡ 0
    → u % minute ≡ 0
    → t ≤ u
    → u < t + minute
    → minute_at utc u ≡ minute_at utc t
unfolding minute_at
same_minute t u z zu h k = omega arith

-- In UTC a round passes over no match: what lies between a minute and the next round's does not
-- match, and the next round's is a whole minute again.
pub round-passes :
    (e : CronExpr) (t u : Time) {t' : Time}
    → t % minute ≡ 0
    → u % minute ≡ 0
    → round utc e t ≡ some t'
    → t ≤ u
    → u < t'
    → matches utc e u ≡ false
unfolding round
round-passes e t u {t'} z zu k h lt =
    ground
      (arith, same_month t u h, same_day_parts t u h, same_hour t u z h, same_minute t u z zu h)

month_jump-whole : (t : Time) → truncate (first_of_next_month utc t) day % minute ≡ 0
month_jump-whole t = omega arith

pub round-whole :
    (e : CronExpr) (t : Time) {t' : Time}
    → t % minute ≡ 0
    → round utc e t ≡ some t'
    → t' % minute ≡ 0
unfolding round
round-whole e t z k = ground arith

pub find_run-suc :
    (loc : Location) (e : CronExpr) (rounds : ℕ) (t : Time)
    → find_run loc e (suc rounds) t
      ≡ elim (round loc e t) [ none ↦ some t | some t' ↦ find_run loc e rounds t' ]
unfolding find_run
find_run-suc loc e rounds t = refl
