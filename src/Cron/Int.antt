-- ===== src/Cron/Int.antt =====
-- Go's int on a 64-bit machine, as a bit pattern below 2^64, and strconv.Atoi.
use go_fire.Base.{
  ℕ, ◌+◌, ◌-◌, ◌*◌, ◌%◌, Bool, true, false, ◌&&◌, [], ◌∷◌, Option, none, some, if◌then◌else◌, leb,
  ltb, ◌==◌,
}
use go_fire.Text.{Text}

abbrev pub int_mod : ℕ
int_mod = 18446744073709551616

abbrev pub sign_bit : ℕ
sign_bit = 9223372036854775808

-- The order of the integers that two patterns stand for.
abbrev pub signed_key : ℕ → ℕ
signed_key a = (a + sign_bit) % int_mod

abbrev pub signed_le : ℕ → ℕ → Bool
signed_le a b = leb (signed_key a) (signed_key b)

abbrev pub signed_lt : ℕ → ℕ → Bool
signed_lt a b = ltb (signed_key a) (signed_key b)

-- `a + b`, which wraps around.
abbrev pub add64 : ℕ → ℕ → ℕ
add64 a b = (a + b) % int_mod

abbrev pub is_digit : ℕ → Bool
is_digit c = leb b'0' c && leb c b'9'

-- The number that digits spell behind `n`; none if a character is no digit.
unfoldable pub digits_from : ℕ → Text → Option ℕ
digits_from n [] = some n
digits_from n (c ∷ s) = if is_digit c then digits_from (n * 10 + (c - b'0')) s else none

-- One or more digits.
unfoldable pub digits : Text → Option ℕ
unfolding digits_from
digits [] = none
digits (c ∷ s) = digits_from 0 (c ∷ s)

abbrev in_range : Bool → Option ℕ → Option ℕ
in_range negative none = none
in_range false (some n) = if ltb n sign_bit then some n else none
in_range true (some n) = if leb n sign_bit then some ((int_mod - n) % int_mod) else none

-- `strconv.Atoi`; none where it returns an error.
unfoldable pub atoi : Text → Option ℕ
unfolding digits
atoi [] = none
atoi (c ∷ s) =
    if c == b'-'
    then in_range true (digits s)
    else if c == b'+'
    then in_range false (digits s)
    else in_range false (digits (c ∷ s))
