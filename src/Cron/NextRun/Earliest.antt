-- ===== src/Cron/NextRun/Earliest.antt =====
-- CalculateNextRun in UTC returns the earliest minute that matches the expression.
use go_fire.Base.{
  ℕ, zero, suc, ◌+◌, ◌*◌, ◌%◌, ◌≤◌, ◌<◌, ◌≡◌, sym, subst, ◌∙◌, ap, true, false, some, arith,
  Option-cases, inl, inr,
}
use native.Mathlib.Decide.{dec_lt}
use go_fire.Text.{Text}
use go_fire.Cron.Field.{ok}
use go_fire.Cron.Parse.{CronExpr, parse_cron}
use go_fire.Cron.Clock.{Time, minute, Location, utc}
use go_fire.Cron.NextRun.{
  round, find_run, start, or_hour, max_rounds, next_run_of, calculate_next_run,
}
use go_fire.Cron.NextRun.Steps.{
  matches, lt-round, round-none, find_run-suc, round-passes, round-whole,
}

-- No whole minute behind `from` and before `t` matches.
abbrev pub NoneBefore : CronExpr → Time → Time → Type 0
NoneBefore e from t = (u : Time) → from < u → u < t → u % minute ≡ 0 → matches utc e u ≡ false

-- `r` is the first whole minute behind `from` that matches.
abbrev pub IsEarliest : CronExpr → Time → Time → Type 0
IsEarliest e from r = (from < r) × (r % minute ≡ 0) × (matches utc e r ≡ true) × NoneBefore e from r

NoneBefore-round :
    (e : CronExpr) (from t t' : Time)
    → t % minute ≡ 0
    → round utc e t ≡ some t'
    → NoneBefore e from t
    → NoneBefore e from t'
NoneBefore-round e from t t' z k before u h lt zu = elim (dec_lt u t) [
  | yes less ↦ before u h less zu
  | no more ↦ round-passes e t u z zu k (omega arith) lt
]

find_run-IsEarliest :
    (rounds : ℕ) (e : CronExpr) (from t r : Time)
    → from < t
    → t % minute ≡ 0
    → NoneBefore e from t
    → find_run utc e rounds t ≡ some r
    → IsEarliest e from r
find_run-IsEarliest zero e from t r h z before k = unfold find_run in cc
find_run-IsEarliest (suc rounds) e from t r h z before k =
    let k' = sym (find_run-suc utc e rounds t) ∙ k in
    elim (Option-cases (round utc e t)) [
      | inl found ↦
          let same : t ≡ r = (cc (rw found at k')) in
          subst (IsEarliest e from) same (h, z, round-none utc e t found, before)
      | inr (t', moved) ↦
          find_run-IsEarliest rounds e from t' r
            (omega (arith, lt-round utc e t (omega arith) moved)) (round-whole e t z moved)
            (NoneBefore-round e from t t' z moved before) (rw moved at k')
    ]

no_jump :
    (e : CronExpr) (t t' u : Time)
    → t % minute ≡ 0
    → u % minute ≡ 0
    → round utc e t ≡ some t'
    → t ≤ u
    → matches utc e u ≡ true
    → t' ≤ u
no_jump e t t' u z zu moved h m = elim (dec_lt u t') [
  | yes less ↦ cc (round-passes e t u z zu moved h less)
  | no ge ↦ omega arith
]

find_run-finds :
    (rounds : ℕ) (e : CronExpr) (t u : Time)
    → t % minute ≡ 0
    → u % minute ≡ 0
    → t ≤ u
    → u < t + rounds * minute
    → matches utc e u ≡ true
    → (r : Time) × (find_run utc e rounds t ≡ some r) × (r ≤ u)
find_run-finds zero e t u z zu h lt m = absurd (omega arith)
find_run-finds (suc rounds) e t u z zu h lt m = elim (Option-cases (round utc e t)) [
  | inl found ↦ (t, rw (find_run-suc, found), h)
  | inr (t', moved) ↦
      let whole = round-whole e t z moved in
      let ahead = lt-round utc e t (omega arith) moved in
      let reach = no_jump e t t' u z zu moved h m in
      let rest : u < t' + rounds * minute = omega arith in
      let (r, k, l) = find_run-finds rounds e t' u whole zu reach rest m in
      (r, rw (find_run-suc, moved) k, l)
]

start-whole : (from : Time) → start from % minute ≡ 0
unfolding start
start-whole from = omega arith

lt-start : (from : Time) → from < start from
unfolding start
lt-start from = omega arith

start-NoneBefore : (e : CronExpr) (from : Time) → NoneBefore e from (start from)
unfolding start
start-NoneBefore e from u h k zu = absurd (omega arith)

pub calculated :
    (loc : Location) (expr : Text) (e : CronExpr) (from : Time) (r : Time)
    → parse_cron expr ≡ ok e
    → find_run loc e max_rounds (start from) ≡ some r
    → calculate_next_run loc expr from ≡ some r
unfolding calculate_next_run
calculated loc expr e from r parsed k =
    ap (λ p. next_run_of loc p from) parsed ∙ ap (λ o. some (or_hour from o)) k

-- For an expression that parses, and a minute behind `from` that matches it and lies at most 525600
-- minutes ahead, CalculateNextRun in UTC returns the earliest minute behind `from` that matches.
pub calculate_next_run-IsEarliest :
    (expr : Text) (e : CronExpr) (from u : Time)
    → parse_cron expr ≡ ok e
    → from < u
    → u < start from + max_rounds * minute
    → u % minute ≡ 0
    → matches utc e u ≡ true
    → (r : Time) × (calculate_next_run utc expr from ≡ some r) × (r ≤ u) × IsEarliest e from r
calculate_next_run-IsEarliest expr e from u parsed h lt zu m =
    let (r, k, l) =
      find_run-finds max_rounds e (start from) u (start-whole from) zu (first_whole from u h zu) lt
        m in
    (
      r,
      calculated utc expr e from r parsed k,
      l,
      find_run-IsEarliest max_rounds e from (start from) r (lt-start from) (start-whole from)
          (start-NoneBefore e from) k,
    )
  where
    first_whole : (from u : Time) → from < u → u % minute ≡ 0 → start from ≤ u
    first_whole from u h zu = unfold start in omega arith
