-- ===== src/Cron/Field.antt =====
-- parsePart (pgk/parser/cron_expression_parser.go): one field of a cron expression, as the sorted
-- list of its values. The set of the source, a map without values, is the list of its keys; the
-- order in which Go ranges over the map does not matter, since the keys are sorted at the end.
pub mod Loop
pub mod Total
pub mod Ranges
use go_fire.Base.{
  ℕ, zero, suc, Bool, not, ◌&&◌, ◌||◌, List, [], ◌∷◌, none, some, Error, if◌then◌else◌, ◌==◌, any,
}
use go_fire.Base.Sort.{sort_by}
use go_fire.Text.{Text, codes, same, contains_char, split}
use go_fire.Cron.Int.{signed_key, signed_le, signed_lt, add64, atoi}

-- The outcome of a part of the parser. `hang` stands for a loop that has not ended within the
-- fuel of the model.
pub data Parsed {ℓ} (A : Type ℓ) : Type ℓ where
  ok : A → Parsed A
  err : Error → Parsed A
  hang : Parsed A

infixl 5 ◌>>=◌
abbrev pub ◌>>=◌ {ℓ κ} : {V : Type ℓ} {W : Type κ} → Parsed V → (V → Parsed W) → Parsed W
◌>>=◌ outcome next = elim outcome [
  | ok value ↦ next value
  | err message ↦ err message
  | hang ↦ hang
]

-- `set[i] = struct{}{}`.
unfoldable pub add_key : ℕ → List ℕ → List ℕ
add_key i set = if any (λ j. j == i) set then set else i ∷ set

-- `for i := i; i <= stop; i += step { set[i] = struct{}{} }`.
unfoldable pub fill : ℕ → ℕ → ℕ → ℕ → List ℕ → Parsed (List ℕ)
unfolding add_key
fill zero i stop step set = hang
fill (suc fuel) i stop step set =
    let rest = fill fuel (add64 i step) stop step (add_key i set) in
    if signed_le i stop then rest else ok set

-- More rounds than any loop over a field of a cron expression makes.
abbrev pub loop_fuel : ℕ
loop_fuel = 256

-- `min` and `max` are not negative in any call.
module _ (min max : ℕ) where
  -- `err != nil || num < min || num > max`, for the number that Atoi returned.
  abbrev pub within : ℕ → Bool
  within num = not (signed_lt num min || signed_lt max num)

  -- `parts` of a range `a-b`, both in bounds and in order.
  unfoldable pub range_of : List Text → Parsed (ℕ × ℕ)
  range_of (a ∷ b ∷ []) = elim (atoi a) [
    | none ↦ err "invalid range"
    | some start ↦ elim (atoi b) [
      | none ↦ err "invalid range"
      | some end ↦
          if signed_lt end start || signed_lt start min || signed_lt max end
          then err "invalid range"
          else ok (start, end)
    ]
  ]
  range_of _ = err "invalid range"

  -- The bounds of the loop for `base/step`. In the case of a range the source declares a new
  -- variable rEnd in the inner block, so that the outer rEnd, which the loop reads, stays 0.
  unfoldable pub bounds_of : Text → Parsed (ℕ × ℕ)
  unfolding range_of
  bounds_of base =
      if same base (codes "*")
      then ok (min, max)
      else if contains_char b'-' base
      then (range_of (split b'-' base) >>= λ p. ok (p.0, 0))
      else elim (atoi base) [
        | none ↦ err "invalid value"
        | some num ↦ if within num then ok (num, max) else err "invalid value"
      ]

  -- `base/step`.
  unfoldable pub stepped : List Text → List ℕ → Parsed (List ℕ)
  unfolding bounds_of fill
  stepped (base ∷ step_text ∷ []) set = elim (atoi step_text) [
    | none ↦ err "invalid step value"
    | some step ↦
        if signed_le step 0
        then err "invalid step value"
        else (bounds_of base >>= λ p. fill loop_fuel p.0 p.1 step set)
  ]
  stepped _ set = err "invalid step expression"

  -- One token between commas.
  unfoldable pub parse_token : Text → List ℕ → Parsed (List ℕ)
  unfolding stepped range_of fill add_key
  parse_token token set =
      if contains_char b'/' token
      then stepped (split b'/' token) set
      else if contains_char b'-' token
      then (range_of (split b'-' token) >>= λ p. fill loop_fuel p.0 p.1 1 set)
      else elim (atoi token) [
        | none ↦ err "invalid value"
        | some num ↦ if within num then ok (add_key num set) else err "invalid value"
      ]

  unfoldable pub parse_tokens : List Text → List ℕ → Parsed (List ℕ)
  unfolding parse_token
  parse_tokens [] set = ok set
  parse_tokens (token ∷ tokens) set = parse_token token set >>= parse_tokens tokens

  -- `*/step`, where `text` is what follows the slash.
  unfoldable pub star_step : Text → Parsed (List ℕ)
  unfolding fill
  star_step text = elim (atoi text) [
    | none ↦ err "invalid step"
    | some step ↦ if signed_le step 0 then err "invalid step" else fill loop_fuel min max step []
  ]

  unfoldable pub part_set : Text → Parsed (List ℕ)
  unfolding star_step parse_tokens fill
  part_set [] = parse_tokens (split b',' []) []
  part_set (c ∷ []) =
      if c == b'*' then fill loop_fuel min max 1 [] else parse_tokens (split b',' (c ∷ [])) []
  part_set (c ∷ d ∷ s) =
      if c == b'*' && d == b'/' then star_step s else parse_tokens (split b',' (c ∷ d ∷ s)) []

  unfoldable pub parse_part : Text → Parsed (List ℕ)
  unfolding part_set sort_by
  parse_part part = part_set part >>= λ set. ok (sort_by signed_key set)
