-- ===== src/Cron/Calendar/Laws.antt =====
-- The calendar counts right: a day lies in its year and in its month, and a date leads back to it.
use native.Mathlib.Decide.{dec_lt}
use go_fire.Base.{ℕ, ◌+◌, ◌-◌, ◌/◌, ◌%◌, ◌≤◌, ◌<◌, ◌≡◌, refl, arith, ◌⊎◌, inl, inr, ap, ◌∙◌}
use go_fire.Cron.Calendar.{
  is_leap, leap_day, year_start, year_of, month_start, month_of, date_of, days_of,
}

pub leap_day-le : (y : ℕ) → leap_day y ≤ 1
leap_day-le y = ground arith

-- A year has 365 days, and one more if it is a leap year.
pub year_start-suc : (y : ℕ) → year_start (y + 1) ≡ year_start y + 365 + leap_day y
unfolding year_start is_leap
year_start-suc y = ground arith

year_of-bounds : (d : ℕ) → (year_start (year_of d) ≤ d) × (d < year_start (year_of d + 1))
unfolding year_start year_of
year_of-bounds d = omega arith

pub month_of-bounds :
    (l n : ℕ)
    → l ≤ 1
    → n < 365 + l
    → (month_start l (month_of l n) ≤ n)
      × (n < month_start l (month_of l n + 1))
      × (month_of l n ≤ 11)
unfolding month_start month_of
month_of-bounds l n h k = ground arith

year_start_mono : (a b : ℕ) → a < b → year_start a + 365 ≤ year_start b
unfolding year_start
year_start_mono a b h = omega arith

year_of_unique : (y d : ℕ) → year_start y ≤ d → d < year_start (y + 1) → year_of d ≡ y
year_of_unique y d h k = elim (lt_or_eq_or_lt (year_of d) y) [
  | inl less ↦ absurd (omega (arith, year_of-bounds d, next (year_of d) y less))
  | inr (inl same) ↦ same
  | inr (inr more) ↦ absurd (omega (arith, year_of-bounds d, next y (year_of d) more))
]
  where
    lt_or_eq_or_lt : (a b : ℕ) → (a < b) ⊎ ((a ≡ b) ⊎ (b < a))
    lt_or_eq_or_lt a b = omega arith

    next : (a b : ℕ) → a < b → year_start (a + 1) ≤ year_start b
    next a b h = unfold year_start in omega arith

month_of_unique :
    (l m n : ℕ)
    → l ≤ 1
    → m ≤ 11
    → month_start l m ≤ n
    → n < month_start l (m + 1)
    → month_of l n ≡ m
unfolding month_start month_of
month_of_unique l m n h k a b = ground arith

-- The day of the year, counted from 0.
day_of_year-lt : (d : ℕ) → d - year_start (year_of d) < 365 + leap_day (year_of d)
day_of_year-lt d = omega (arith, year_of-bounds d, year_start-suc (year_of d))

-- The parts of a date lie in their ranges.
pub date_of-ranges :
    (d : ℕ) → (1 ≤ (date_of d).month) × ((date_of d).month ≤ 12) × (1 ≤ (date_of d).day)
unfolding date_of
date_of-ranges d = omega (
  arith,
  month_of-bounds (leap_day (year_of d)) (d - year_start (year_of d)) (leap_day-le (year_of d))
      (day_of_year-lt d),
)

days_of-month :
    (y m k : ℕ) → m ≤ 11 → days_of y (m + 1) (k + 1) ≡ year_start y + month_start (leap_day y) m + k
unfolding days_of
days_of-month y m k h =
    let e : y + (m + 1 - 1) / 12 ≡ y = omega arith in
    let e' : (m + 1 - 1) % 12 ≡ m = omega arith in rw (e, e') (omega arith)

december :
    (y m : ℕ) → m ≡ 11 → days_of y (m + 2) 1 ≡ year_start y + month_start (leap_day y) (m + 1)
unfolding days_of month_start
december y m h =
    let e : y + (m + 2 - 1) / 12 ≡ y + 1 = omega arith in
    let e' : (m + 2 - 1) % 12 ≡ 0 = omega arith in
    let e'' : m + 1 ≡ 12 = omega arith in rw (e, e', e'') (omega (arith, year_start-suc y))

-- The first day of the next month, also where that is in the next year.
days_of-next_month :
    (y m : ℕ) → m ≤ 11 → days_of y (m + 2) 1 ≡ year_start y + month_start (leap_day y) (m + 1)
days_of-next_month y m h = elim (dec_lt m 11) [
  | yes before ↦
      let e : m + 2 ≡ m + 1 + 1 = omega arith in
      ap (λ k. days_of y k 1) e ∙ days_of-month y (m + 1) 0 (omega arith) ∙ omega arith
  | no last ↦ december y m (omega arith)
]

-- Counting a date back gives the day that it came from, so that a later day of the month is as
-- many days later.
pub days_of-date_of :
    (d k : ℕ) → days_of (date_of d).year (date_of d).month ((date_of d).day + k) ≡ d + k
unfolding date_of
days_of-date_of d k =
    let y = year_of d in
    let n = d - year_start y in
    let m = month_of (leap_day y) n in
    let b = month_of-bounds (leap_day y) n (leap_day-le y) (day_of_year-lt d) in
    ap (λ j. days_of y (m + 1) j) (omega arith)
    ∙ days_of-month y m (n - month_start (leap_day y) m + k) b.2
    ∙ omega (arith, year_of-bounds d)

-- The first day behind the month of a day.
next_month_lem :
    (d : ℕ)
    → days_of (date_of d).year ((date_of d).month + 1) 1
      ≡ year_start (year_of d)
        + month_start
            (leap_day (year_of d))
            (month_of (leap_day (year_of d)) (d - year_start (year_of d)) + 1)
unfolding date_of
next_month_lem d =
    let y = year_of d in
    let m = month_of (leap_day y) (d - year_start y) in
    let b = month_of-bounds (leap_day y) (d - year_start y) (leap_day-le y) (day_of_year-lt d) in
    let e : m + 1 + 1 ≡ m + 2 = omega arith in
    ap (λ k. days_of y k 1) e ∙ days_of-next_month y m b.2

-- The first day of the next month is later.
pub lt-next_month : (d : ℕ) → d < days_of (date_of d).year ((date_of d).month + 1) 1
lt-next_month d =
    let y = year_of d in
    omega (
      arith,
      next_month_lem d,
      year_of-bounds d,
      month_of-bounds (leap_day y) (d - year_start y) (leap_day-le y) (day_of_year-lt d),
    )

-- All days from a day to the end of its month are in that month.
pub month_stays :
    (d d' : ℕ)
    → d ≤ d'
    → d' < days_of (date_of d).year ((date_of d).month + 1) 1
    → (date_of d').month ≡ (date_of d).month
month_stays d d' h k =
    let y = year_of d in
    let l = leap_day y in
    let m = month_of l (d - year_start y) in
    let yb = year_of-bounds d in
    let mb = month_of-bounds l (d - year_start y) (leap_day-le y) (day_of_year-lt d) in
    let upper = month_start-le l (m + 1) (leap_day-le y) (omega arith) in
    let y' : year_of d' ≡ y =
      year_of_unique y d' (omega arith) (omega (arith, next_month_lem d, year_start-suc y)) in
    let m' : month_of l (d' - year_start y) ≡ m =
      month_of_unique l m (d' - year_start y) (leap_day-le y) mb.2 (omega arith)
        (omega (arith, next_month_lem d)) in
    unfold date_of in rw (y', m') refl
  where
    month_start-le : (l m : ℕ) → l ≤ 1 → m ≤ 12 → month_start l m ≤ 365 + l
    month_start-le l m h k = unfold month_start in ground arith
