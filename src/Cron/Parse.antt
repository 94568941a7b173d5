-- ===== src/Cron/Parse.antt =====
-- ParseCron (pgk/parser/cron_expression_parser.go).
use go_fire.Base.{ℕ, List, [], ◌∷◌}
use go_fire.Text.{Text, fields}
use go_fire.Cron.Field.{Parsed, ok, err, ◌>>=◌, parse_part}

pub record CronExpr : Type 0 where
  pub minute : List ℕ
  pub hour : List ℕ
  pub day_of_month : List ℕ
  pub month : List ℕ
  pub day_of_week : List ℕ

unfoldable pub parse_fields : List Text → Parsed CronExpr
unfolding parse_part
parse_fields (f0 ∷ f1 ∷ f2 ∷ f3 ∷ f4 ∷ []) = do
  minute ← parse_part 0 59 f0
  hour ← parse_part 0 23 f1
  day_of_month ← parse_part 1 31 f2
  month ← parse_part 1 12 f3
  day_of_week ← parse_part 0 6 f4
  ok (record {
    minute = minute;
    hour = hour;
    day_of_month = day_of_month;
    month = month;
    day_of_week = day_of_week;
  })
parse_fields _ = err "invalid cron expression"

unfoldable pub parse_cron : Text → Parsed CronExpr
unfolding parse_fields fields
parse_cron expr = parse_fields (fields expr)
