-- ===== src/Cron/Field/Total.antt =====
-- Every loop of the parser ends: parsing a field gives values or an error.
use go_fire.Base.{
  ℕ, ◌+◌, ◌≤◌, ◌<◌, ◌≡◌, ◌≢◌, refl, false, List, [], ◌∷◌, Option, none, some, arith, if◌then◌else◌,
  ltb, ◌==◌, ◌&&◌, Bool-cases, inl, inr,
}
use go_fire.Text.{Text, contains_char, split}
use go_fire.Cron.Int.{int_mod, sign_bit, signed_le, atoi}
use go_fire.Cron.Field.{
  Parsed, ok, err, hang, ◌>>=◌, fill, loop_fuel, range_of, bounds_of, stepped, parse_token,
  parse_tokens, star_step, part_set, parse_part,
}
use go_fire.Cron.Field.Loop.{fill_small_ends, fill_large_ends}

-- A value below a bound, if there is one.
abbrev Below : Option ℕ → Type 0
Below none = Unit
Below (some n) = n < int_mod

-- Atoi returns an int.
atoi-Below : (s : Text) → Below (atoi s)
unfolding atoi
atoi-Below [] = tt
atoi-Below (c ∷ s) = ground arith

-- The loop of a field ends, for every step that passes the test of the source.
pub fill_ends :
    (i stop step : ℕ) (set : List ℕ)
    → step < int_mod
    → signed_le step 0 ≡ false
    → stop < 64
    → i < 64
    → fill loop_fuel i stop step set ≢ hang
fill_ends i stop step set s p e h = elim (Bool-cases (ltb (step + 64) sign_bit)) [
  | inl small ↦
      fill_small_ends 255 i stop step set (ground arith) (ground arith) e (omega arith)
        (omega arith)
  | inr large ↦ fill_large_ends 255 i stop step set (ground arith) (ground arith) e h (omega arith)
]

-- A part of the parser that ends, with a result that satisfies `P` if it has one.
abbrev pub Ends {ℓ} : {A : Type ℓ} → (A → Type 0) → Parsed A → Type 0
Ends P (ok a) = P a
Ends P (err e) = Unit
Ends P hang = ⊥

Ends-ne-hang {ℓ} : {A : Type ℓ} (P : A → Type 0) (m : Parsed A) → Ends P m → m ≢ hang
Ends-ne-hang P (ok a) h = λ e. cc
Ends-ne-hang P (err x) h = λ e. cc
Ends-ne-hang P hang h = absurd h

ne-hang-Ends {ℓ} : {A : Type ℓ} (m : Parsed A) → m ≢ hang → Ends (λ a. Unit) m
ne-hang-Ends (ok a) h = tt
ne-hang-Ends (err x) h = tt
ne-hang-Ends hang h = absurd (h refl)

pub bind-Ends {ℓ κ} :
    {A : Type ℓ} {B : Type κ} (P : A → Type 0) (Q : B → Type 0) (m : Parsed A) (f : A → Parsed B)
    → Ends P m
    → ((a : A) → P a → Ends Q (f a))
    → Ends Q (m >>= f)
bind-Ends P Q (ok a) f h k = k a h
bind-Ends P Q (err e) f h k = tt
bind-Ends P Q hang f h k = absurd h

abbrev IsDone : List ℕ → Type 0
IsDone set = Unit

module _ (min max : ℕ) (small : max < 64) (ordered : min ≤ max) where
  abbrev IsRange : ℕ × ℕ → Type 0
  IsRange p = (min ≤ p.0) × (p.0 ≤ p.1) × (p.1 ≤ max)

  abbrev IsLoop : ℕ × ℕ → Type 0
  IsLoop p = (p.0 < 64) × (p.1 < 64)

  -- A range that is accepted lies in the bounds of the field.
  range_of-Ends : (parts : List Text) → Ends IsRange (range_of min max parts)
  unfolding range_of
  range_of-Ends [] = tt
  range_of-Ends (a ∷ []) = tt
  range_of-Ends (a ∷ b ∷ c ∷ rest) = tt
  range_of-Ends (a ∷ b ∷ []) = ground (arith, atoi-Below a, atoi-Below b)

  bounds_of-Ends : (base : Text) → Ends IsLoop (bounds_of min max base)
  unfolding bounds_of
  bounds_of-Ends base = ground (
    arith,
    atoi-Below base,
    bind-Ends IsRange IsLoop (range_of min max (split b'-' base)) (λ p. ok (p.0, 0))
        (range_of-Ends (split b'-' base)) (λ p h. (omega arith, omega arith)),
  )

  loop-Ends :
      (step : ℕ) (set : List ℕ) (p : ℕ × ℕ)
      → step < int_mod
      → signed_le step 0 ≡ false
      → IsLoop p
      → Ends IsDone (fill loop_fuel p.0 p.1 step set)
  loop-Ends step set p s pos h = ne-hang-Ends _ (fill_ends p.0 p.1 step set s pos h.1 h.0)

  stepped-Ends : (parts : List Text) (set : List ℕ) → Ends IsDone (stepped min max parts set)
  unfolding stepped
  stepped-Ends [] set = tt
  stepped-Ends (a ∷ []) set = tt
  stepped-Ends (a ∷ b ∷ c ∷ rest) set = tt
  stepped-Ends (base ∷ text ∷ []) set = go (atoi text) (atoi-Below text)
    where
      go :
          (o : Option ℕ)
          → Below o
          → Ends IsDone (elim o [
            | none ↦ err "invalid step value"
            | some step ↦
                if signed_le step 0
                then err "invalid step value"
                else (bounds_of min max base >>= λ p. fill loop_fuel p.0 p.1 step set)
          ])
      go none h = tt
      go (some step) h = elim (Bool-cases (signed_le step 0)) [
        | inl bad ↦ rw bad tt
        | inr good ↦ rw good (
            bind-Ends IsLoop IsDone (bounds_of min max base) _ (bounds_of-Ends base)
              (λ p l. loop-Ends step set p h good l))
      ]

  token-Ends : (token : Text) (set : List ℕ) → Ends IsDone (parse_token min max token set)
  unfolding parse_token
  token-Ends token set = elim (Bool-cases (contains_char b'/' token)) [
    | inl slash ↦ rw slash (stepped-Ends (split b'/' token) set)
    | inr plain ↦ rw plain (elim (Bool-cases (contains_char b'-' token)) [
      | inl dash ↦ rw dash (
          bind-Ends IsRange IsDone (range_of min max (split b'-' token)) _
            (range_of-Ends (split b'-' token))
            (λ p r. loop-Ends 1 set p (omega arith) refl (omega arith, omega arith)))
      | inr single ↦ rw single (ground arith)
    ])
  ]

  tokens-Ends : (tokens : List Text) (set : List ℕ) → Ends IsDone (parse_tokens min max tokens set)
  unfolding parse_tokens
  tokens-Ends [] set = tt
  tokens-Ends (token ∷ tokens) set =
      bind-Ends IsDone IsDone (parse_token min max token set) _ (token-Ends token set)
        (λ set' _. tokens-Ends tokens set')

  star_step-Ends : (text : Text) → Ends IsDone (star_step min max text)
  unfolding star_step
  star_step-Ends text = go (atoi text) (atoi-Below text)
    where
      go :
          (o : Option ℕ)
          → Below o
          → Ends IsDone (elim o [
            | none ↦ err "invalid step"
            | some step ↦
                if signed_le step 0 then err "invalid step" else fill loop_fuel min max step []
          ])
      go none h = tt
      go (some step) h = elim (Bool-cases (signed_le step 0)) [
        | inl bad ↦ rw bad tt
        | inr good ↦ rw good (loop-Ends step [] (min, max) h good (omega arith, omega arith))
      ]

  part_set-Ends : (part : Text) → Ends IsDone (part_set min max part)
  unfolding part_set
  part_set-Ends [] = tokens-Ends (split b',' []) []
  part_set-Ends (c ∷ []) = elim (Bool-cases (c == b'*')) [
    | inl star ↦ rw star (loop-Ends 1 [] (min, max) (omega arith) refl (omega arith, omega arith))
    | inr other ↦ rw other (tokens-Ends (split b',' (c ∷ [])) [])
  ]
  part_set-Ends (c ∷ d ∷ s) = elim (Bool-cases (c == b'*' && d == b'/')) [
    | inl star ↦ rw star (star_step-Ends s)
    | inr other ↦ rw other (tokens-Ends (split b',' (c ∷ d ∷ s)) [])
  ]

pub parse_part-Ends :
    (min max : ℕ) (part : Text)
    → max < 64
    → min ≤ max
    → Ends (λ vals. Unit) (parse_part min max part)
unfolding parse_part
parse_part-Ends min max part small ordered =
    bind-Ends IsDone IsDone (part_set min max part) _ (part_set-Ends min max small ordered part)
      (λ set _. tt)

-- Parsing a field ends, for every text and every field whose bounds are below 64: each loop stops
-- by its own test, also where its step wraps around.
pub parse_part-ne-hang :
    (min max : ℕ) (part : Text) → max < 64 → min ≤ max → parse_part min max part ≢ hang
parse_part-ne-hang min max part small ordered =
    Ends-ne-hang IsDone _ (parse_part-Ends min max part small ordered)
