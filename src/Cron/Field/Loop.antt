-- ===== src/Cron/Field/Loop.antt =====
-- The loop that fills the set of a field.
use go_fire.Base.{
  ℕ, zero, suc, ◌+◌, ◌*◌, ◌≤◌, ◌<◌, ◌≡◌, ◌≢◌, refl, true, false, List, arith, if◌then◌else◌,
  Bool-cases, inl, inr, ◌⊎◌,
}
use go_fire.Cron.Int.{sign_bit, signed_le, add64}
use go_fire.Cron.Field.{ok, hang, add_key, fill}

pub fill-suc :
    (fuel i stop step : ℕ) (set : List ℕ)
    → fill (suc fuel) i stop step set
      ≡ (if signed_le i stop then fill fuel (add64 i step) stop step (add_key i set) else ok set)
unfolding fill
fill-suc fuel i stop step set = refl

-- The loop stops at once behind its end.
pub fill-done :
    (fuel i stop step : ℕ) (set : List ℕ)
    → signed_le i stop ≡ false
    → fill (suc fuel) i stop step set ≡ ok set
fill-done fuel i stop step set h = rw fill-suc (rw h)

-- A step that cannot wrap around.
pub fill_small_ends :
    (fuel i stop step : ℕ) (set : List ℕ)
    → 0 < step
    → step + 64 < sign_bit
    → stop < 64
    → i < sign_bit
    → stop < i + fuel
    → fill (suc fuel) i stop step set ≢ hang
fill_small_ends zero i stop step set s0 s1 e hi h =
    rw (fill-done zero i stop step set (ground arith)) (λ e'. cc)
fill_small_ends (suc fuel) i stop step set s0 s1 e hi h = elim (Bool-cases (signed_le i stop)) [
  | inl more ↦
      rw (fill-suc, more)
        (fill_small_ends fuel (add64 i step) stop step (add_key i set) s0 s1 e (ground arith)
          (ground arith))
  | inr done ↦ rw (fill-done (suc fuel) i stop step set done) (λ e'. cc)
]

-- Two rounds of a step near 2^63 take `i` down, or the loop ends after one more.
two_rounds :
    (i stop step : ℕ)
    → sign_bit ≤ step + 64
    → step < sign_bit
    → stop < 64
    → i < 64
    → signed_le (add64 i step) stop ≡ true
    → (add64 (add64 i step) step < i)
      ⊎ (signed_le (add64 (add64 (add64 i step) step) step) stop ≡ false)
two_rounds i stop step s0 s1 e hi h = ground arith

-- A step that may wrap around: the loop still ends.
pub fill_large_ends :
    (fuel i stop step : ℕ) (set : List ℕ)
    → sign_bit ≤ step + 64
    → step < sign_bit
    → stop < 64
    → i < 64
    → 3 + 2 * i ≤ fuel
    → fill (suc fuel) i stop step set ≢ hang
fill_large_ends zero i stop step set s0 s1 e hi f = absurd (omega arith)
fill_large_ends (suc zero) i stop step set s0 s1 e hi f = absurd (omega arith)
fill_large_ends (suc (suc zero)) i stop step set s0 s1 e hi f = absurd (omega arith)
fill_large_ends (suc (suc (suc fuel))) i stop step set s0 s1 e hi f =
    let j = add64 i step in
    let k = add64 j step in
    let set1 = add_key i set in
    let set2 = add_key j set1 in
    elim (Bool-cases (signed_le i stop)) [
      | inr done ↦ rw (fill-done _ i stop step set done) (λ e'. cc)
      | inl more ↦
          rw (fill-suc, more)
            (elim (Bool-cases (signed_le j stop)) [
              | inr done ↦ rw (fill-done _ j stop step set1 done) (λ e'. cc)
              | inl more' ↦
                  rw (fill-suc, more')
                    (elim (two_rounds i stop step s0 s1 e hi more') [
                      | inl lower ↦
                          fill_large_ends (suc fuel) k stop step set2 s0 s1 e (omega arith)
                            (omega arith)
                      | inr ends ↦ elim (Bool-cases (signed_le k stop)) [
                        | inr done ↦ rw (fill-done _ k stop step set2 done) (λ e'. cc)
                        | inl more'' ↦
                            rw (fill-suc, more'')
                              (rw (fill-done _ (add64 k step) stop step (add_key k set2) ends)
                                (λ e'. cc))
                      ]
                    ])
            ])
    ]
