-- ===== src/Client/Timer/Laws.antt =====
-- When the function of a timer runs.
use go_fire.Base.{
  suc, ◌+◌, ◌≤◌, ◌<◌, ◌≡◌, refl, ap, ◌⊎◌, inl, inr, true, List, [], ◌∷◌, none, some, arith, length,
  any, Option-cases,
}
use go_fire.Text.{Text}
use go_fire.Cron.Clock.{Time, Location}
use go_fire.Cron.NextRun.Future.{lt-calculate_next_run}
use go_fire.Client.Timer.{Round, Ran, Log, next_of, wait, run_with_timer_internal}

-- Each run begins at its time or later, and its time is later than the run before.
abbrev pub IsOnTime : Time → List Ran → Type 0
IsOnTime clock [] = Unit
IsOnTime clock (ran ∷ runs) = (clock < ran.slot) × (ran.slot ≤ ran.at) × IsOnTime ran.at runs

wait-slot :
    (clock : Time) (r : Round) (next : Time) {ran : Ran}
    → wait clock r next ≡ some ran
    → (ran.slot ≡ next) × (ran.slot ≤ ran.at)
unfolding wait
wait-slot clock r next {ran} h = ground arith

wait-cancelled :
    (clock : Time) (r : Round) (next : Time) → wait clock r next ≡ none → r.cancelled ≡ true
unfolding wait
wait-cancelled clock r next h = ground arith

-- Every round has ended with a run and the loop goes on, or the context was cancelled and the loop has
-- returned its error.
abbrev pub GoesOn : List Round → Log → Type 0
GoesOn rounds log =
    ((length log.0 ≡ length rounds) × (log.1 ≡ none))
    ⊎ ((any (λ (r : Round). r.cancelled) rounds ≡ true) × (log.1 ≡ some "context canceled"))

module _ (loc : Location) (expression : Text) where
  run-IsOnTime :
      (rounds : List Round) (clock : Time)
      → loc.west ≤ clock
      → IsOnTime clock (run_with_timer_internal loc expression rounds clock).0
  unfolding run_with_timer_internal next_of
  run-IsOnTime [] clock w = tt
  run-IsOnTime (r ∷ rounds) clock w =
      let (next, e, later) = lt-calculate_next_run loc expression (clock + r.pause) (omega arith) in
      elim (Option-cases (wait clock r next)) [
        | inl stops ↦ rw (run_with_timer_internal, e, stops) tt
        | inr (ran, runs) ↦
            let (slot, on_time) = wait-slot clock r next runs in
            rw (run_with_timer_internal, e, runs)
              (omega arith, on_time, run-IsOnTime rounds ran.at (omega arith))
      ]

  run-GoesOn :
      (rounds : List Round) (clock : Time)
      → loc.west ≤ clock
      → GoesOn rounds (run_with_timer_internal loc expression rounds clock)
  unfolding run_with_timer_internal next_of
  run-GoesOn [] clock w = inl (refl, refl)
  run-GoesOn (r ∷ rounds) clock w =
      let (next, e, later) = lt-calculate_next_run loc expression (clock + r.pause) (omega arith) in
      elim (Option-cases (wait clock r next)) [
        | inl stops ↦
            let cancelled = wait-cancelled clock r next stops in
            rw (run_with_timer_internal, e, stops, cancelled) (inr (refl, refl))
        | inr (ran, runs) ↦
            let (slot, on_time) = wait-slot clock r next runs in
            rw (run_with_timer_internal, e, runs)
              (elim (run-GoesOn rounds ran.at (omega arith)) [
                | inl (all, none') ↦ inl (ap suc all, none')
                | inr (some', error) ↦ inr (rw some' (ground arith), error)
              ])
      ]

  -- In every location with a fixed offset, for every text as the expression, and from every time at which
  -- a clock of the location shows a date of the year 1 or later: the timer never runs the function before
  -- its time, and the times of its runs rise, each behind the beginning of the run before, so that no time
  -- has two runs; every round of the loop ends with a run, unless the context is cancelled in one of them,
  -- and then the loop returns the error.
  pub run_with_timer-IsOnTime :
      (rounds : List Round) (clock : Time)
      → loc.west ≤ clock
      → IsOnTime clock (run_with_timer_internal loc expression rounds clock).0
        × GoesOn rounds (run_with_timer_internal loc expression rounds clock)
  run_with_timer-IsOnTime rounds clock w = (run-IsOnTime rounds clock w, run-GoesOn rounds clock w)
