-- ===== src/Cron/NextRun/Future.antt =====
-- CalculateNextRun always returns, and always a time in the future.
use go_fire.Base.{
  ℕ, zero, suc, ◌+◌, ◌≤◌, ◌<◌, ◌≡◌, refl, List, [], ◌∷◌, some, arith, Option-cases, inl, inr, sym,
  ◌∙◌,
}
use go_fire.Text.{Text, fields}
use go_fire.Cron.Field.{Parsed, ok, err, hang, parse_part}
use go_fire.Cron.Field.Total.{Ends, bind-Ends, parse_part-Ends}
use go_fire.Cron.Parse.{CronExpr, parse_fields, parse_cron}
use go_fire.Cron.Clock.{Time, Location}
use go_fire.Cron.NextRun.{
  round, find_run, start, or_hour, max_rounds, next_run_of, calculate_next_run,
}
use go_fire.Cron.NextRun.Steps.{lt-round, find_run-suc}

abbrev IsAny {ℓ} : {A : Type ℓ} → A → Type 0
IsAny a = Unit

parse_fields-Ends : (parts : List Text) → Ends IsAny (parse_fields parts)
unfolding parse_fields
parse_fields-Ends [] = tt
parse_fields-Ends (a ∷ []) = tt
parse_fields-Ends (a ∷ b ∷ []) = tt
parse_fields-Ends (a ∷ b ∷ c ∷ []) = tt
parse_fields-Ends (a ∷ b ∷ c ∷ d ∷ []) = tt
parse_fields-Ends (a ∷ b ∷ c ∷ d ∷ e ∷ f ∷ rest) = tt
parse_fields-Ends (a ∷ b ∷ c ∷ d ∷ e ∷ []) =
    bind-Ends IsAny IsAny (parse_part 0 59 a) _ (parse_part-Ends 0 59 a (omega arith) (omega arith))
      λ va _.
        bind-Ends IsAny IsAny (parse_part 0 23 b) _
          (parse_part-Ends 0 23 b (omega arith) (omega arith))
          λ vb _.
            bind-Ends IsAny IsAny (parse_part 1 31 c) _
              (parse_part-Ends 1 31 c (omega arith) (omega arith))
              λ vc _.
                bind-Ends IsAny IsAny (parse_part 1 12 d) _
                  (parse_part-Ends 1 12 d (omega arith) (omega arith))
                  λ vd _.
                    bind-Ends IsAny IsAny (parse_part 0 6 e) _
                      (parse_part-Ends 0 6 e (omega arith) (omega arith)) λ ve _. tt

parse_cron-Ends : (expr : Text) → Ends IsAny (parse_cron expr)
unfolding parse_cron
parse_cron-Ends expr = parse_fields-Ends (fields expr)

lt-find_run :
    (loc : Location) (e : CronExpr) (rounds : ℕ) (from t : Time) {r : Time}
    → loc.west ≤ t
    → from < t
    → find_run loc e rounds t ≡ some r
    → from < r
lt-find_run loc e zero from t w h k = unfold find_run in cc
lt-find_run loc e (suc rounds) from t {r} w h k =
    let k' = sym (find_run-suc loc e rounds t) ∙ k in
    elim (Option-cases (round loc e t)) [
      | inl found ↦ let same : t ≡ r = cc (rw found at k') in omega arith
      | inr (t', moved) ↦
          let ahead = lt-round loc e t w moved in
          lt-find_run loc e rounds from t' (omega arith) (omega arith) (rw moved at k')
    ]

lt-or_hour :
    (loc : Location) (e : CronExpr) (from : Time)
    → loc.west ≤ from
    → from < or_hour from (find_run loc e max_rounds (start from))
unfolding start
lt-or_hour loc e from w = elim (Option-cases (find_run loc e max_rounds (start from))) [
  | inl k ↦ rw k (omega arith)
  | inr (r, k) ↦ rw k (lt-find_run loc e max_rounds from (start from) (omega arith) (omega arith) k)
]

lt-next_run_of :
    (loc : Location) (p : Parsed CronExpr) (from : Time)
    → loc.west ≤ from
    → Ends IsAny p
    → (t : Time) × (next_run_of loc p from ≡ some t) × (from < t)
unfolding next_run_of
lt-next_run_of loc (ok e) from w h =
    (or_hour from (find_run loc e max_rounds (start from)), refl, lt-or_hour loc e from w)
lt-next_run_of loc (err x) from w h = (from + 3600000000000, refl, omega arith)
lt-next_run_of loc hang from w h = absurd h

-- For every text, valid or not, in every location with a fixed offset, and from every time at which
-- a clock of the location shows a date of the year 1 or later, CalculateNextRun returns a time, and
-- that time is later.
pub lt-calculate_next_run :
    (loc : Location) (expr : Text) (from : Time)
    → loc.west ≤ from
    → (t : Time) × (calculate_next_run loc expr from ≡ some t) × (from < t)
unfolding calculate_next_run
lt-calculate_next_run loc expr from w =
    lt-next_run_of loc (parse_cron expr) from w (parse_cron-Ends expr)
