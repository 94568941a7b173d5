-- ===== src/Tests/Cron.antt =====
-- The cases of pgk/parser/parser_test.go, and the theorems about the parser at concrete inputs.
use go_fire.Base.{◌≡◌, ◌≢◌, refl, [], ◌∷◌, arith, ◌==◌, if◌then◌else◌}
use go_fire.Text.{codes, split}
use go_fire.Cron.Int.{atoi}
use go_fire.Cron.Field.{ok, err, hang, add_key, stepped, parse_part}
use go_fire.Cron.Field.Total.{parse_part-ne-hang}
use go_fire.Cron.Field.Ranges.{stepped_range}

mixed : parse_part 0 5 (codes "1,3-4,5") ≡ ok (1 ∷ 3 ∷ 4 ∷ 5 ∷ [])
unfolding parse_part split atoi
mixed = refl

wildcard : parse_part 0 5 (codes "*") ≡ ok (0 ∷ 1 ∷ 2 ∷ 3 ∷ 4 ∷ 5 ∷ [])
unfolding parse_part split atoi
wildcard = refl

out_of_bounds : parse_part 0 5 (codes "7") ≡ err "invalid value"
unfolding parse_part split atoi
out_of_bounds = refl

bad_range_format : parse_part 0 5 (codes "1-2-3") ≡ err "invalid range"
unfolding parse_part split atoi
bad_range_format = refl

quarter_hours : parse_part 0 59 (codes "*/15") ≡ ok (0 ∷ 15 ∷ 30 ∷ 45 ∷ [])
unfolding parse_part split atoi
quarter_hours = refl

-- A range with a step loses its end.
ten_to_fifty : parse_part 0 59 (codes "10-50/5") ≡ ok []
unfolding parse_part split atoi
ten_to_fifty = refl

-- The step 2^63 - 1 wraps around: 1 + (2^63 - 1) is -2^63, and one more step gives -1.
wrapping_step :
    parse_part 1 31 (codes "*/9223372036854775807")
    ≡ ok (9223372036854775808 ∷ 18446744073709551615 ∷ 1 ∷ [])
unfolding parse_part split atoi
wrapping_step = refl

parse_part-ne-hang_example : parse_part 1 31 (codes "*/9223372036854775807") ≢ hang
parse_part-ne-hang_example =
    parse_part-ne-hang 1 31 (codes "*/9223372036854775807") (omega arith) (omega arith)

stepped_range_example :
    stepped 0 59 (codes "10-50" ∷ codes "5" ∷ []) [] ≡ ok (if 10 == 0 then add_key 0 [] else [])
unfolding split atoi
stepped_range_example =
    stepped_range 0 59 (codes "10-50") (codes "5") (codes "10") (codes "50") 10 50 5 [] refl refl
      refl refl (omega arith) (omega arith) (omega arith) (omega arith) refl (omega arith)
      (omega arith)
