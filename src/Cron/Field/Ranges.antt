-- ===== src/Cron/Field/Ranges.antt =====
-- What a range with a step, `a-b/s`, denotes.
use go_fire.Base.{
  ℕ, ◌≤◌, ◌<◌, ◌≡◌, refl, true, false, List, [], ◌∷◌, some, ==_iff, arith, if◌then◌else◌, ◌==◌,
  Bool-cases, inl, inr,
}
use go_fire.Text.{Text, codes, same, contains_char, split}
use go_fire.Cron.Int.{sign_bit, signed_le, add64, atoi}
use go_fire.Cron.Field.{ok, add_key, fill, loop_fuel, range_of, bounds_of, stepped}
use go_fire.Cron.Field.Loop.{fill-suc, fill-done}

same-star : (base : Text) → contains_char b'-' base ≡ true → same base (codes "*") ≡ false
same-star [] h = refl
same-star (c ∷ []) h = ground arith
same-star (c ∷ d ∷ base) h = ground arith

range_of_lem :
    (min max : ℕ) (ta tb : Text) (a b : ℕ)
    → atoi ta ≡ some a
    → atoi tb ≡ some b
    → min ≤ a
    → a ≤ b
    → b ≤ max
    → max < 64
    → range_of min max (ta ∷ tb ∷ []) ≡ ok (a, b)
unfolding range_of
range_of_lem min max ta tb a b ea eb h k l small = ground arith

-- One round at most: the loop ends at 0.
fill_to_zero :
    (a step : ℕ) (set : List ℕ)
    → a < 64
    → 0 < step
    → step < sign_bit
    → fill loop_fuel a 0 step set ≡ ok (if a == 0 then add_key 0 set else set)
fill_to_zero a step set small pos s = elim (Bool-cases (a == 0)) [
  | inl first ↦
      let zero' : a ≡ 0 = (==_iff a 0).0 first in
      rw (first, zero', fill-suc)
        (fill-done 254 (add64 0 step) 0 step (add_key 0 set) (ground arith))
  | inr later ↦ rw later (fill-done 255 a 0 step set (ground arith))
]

bounds_of_range :
    (min max : ℕ) (base ta tb : Text) (a b : ℕ)
    → contains_char b'-' base ≡ true
    → split b'-' base ≡ ta ∷ tb ∷ []
    → atoi ta ≡ some a
    → atoi tb ≡ some b
    → min ≤ a
    → a ≤ b
    → b ≤ max
    → max < 64
    → bounds_of min max base ≡ ok (a, 0)
unfolding bounds_of
bounds_of_range min max base ta tb a b dash parts ea eb h k l small =
    rw (same-star base dash, bounds_of)
      (rw (dash, parts, range_of_lem min max ta tb a b ea eb h k l small))

positive : (step : ℕ) → 0 < step → step < sign_bit → signed_le step 0 ≡ false
positive step h k = ground arith

-- A token `a-b/s`, a range in bounds with a positive step, adds nothing to the set so far, or the value 0
-- if it begins at 0: of the values from a to b that are s apart, it adds none but 0.
pub stepped_range :
    (min max : ℕ) (base text ta tb : Text) (a b step : ℕ) (set : List ℕ)
    → contains_char b'-' base ≡ true
    → split b'-' base ≡ ta ∷ tb ∷ []
    → atoi ta ≡ some a
    → atoi tb ≡ some b
    → min ≤ a
    → a ≤ b
    → b ≤ max
    → max < 64
    → atoi text ≡ some step
    → 0 < step
    → step < sign_bit
    → stepped min max (base ∷ text ∷ []) set ≡ ok (if a == 0 then add_key 0 set else set)
unfolding stepped
stepped_range min max base text ta tb a b step set dash parts ea eb h k l small es pos s =
    rw (es, stepped)
      (rw (positive step pos s, bounds_of_range min max base ta tb a b dash parts ea eb h k l small)
        (fill_to_zero a step set (omega arith) pos s))
