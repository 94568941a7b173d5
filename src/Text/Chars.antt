-- ===== src/Text/Chars.antt =====
-- From code points to a String, and strings.TrimSpace.
use Prim.Native.Char.{Char, char, IsScalar}
use Prim.Native.Nat.{compare, Ordering}
use mathlib.Core.List.{reverse}
use go_fire.Base.{ℕ, ◌≡◌, refl, [], ◌∷◌, Option, none, some, String, if◌then◌else◌}
use go_fire.Text.{Text, is_space}

high_scalar :
    (n : ℕ) (o p : Ordering)
    → compare n 55296 ≡ Ordering.gt
    → compare 57343 n ≡ o
    → compare n 1114112 ≡ p
    → Option (IsScalar n)
high_scalar n Ordering.lt Ordering.lt e f g = some (rw (e, f, g) tt)
high_scalar n _ _ e f g = none

scalar : (n : ℕ) (o : Ordering) → compare n 55296 ≡ o → Option (IsScalar n)
unfolding high_scalar
scalar n Ordering.lt e = some (rw e tt)
scalar n Ordering.eq e = none
scalar n Ordering.gt e = high_scalar n (compare 57343 n) (compare n 1114112) e refl refl

-- U+FFFD stands for what is no character.
abbrev pub to_char : ℕ → Char
unfolding scalar
to_char n = elim (scalar n (compare n 55296) refl) [ none ↦ char 65533 tt | some p ↦ char n p ]

unfoldable pub string_of : Text → String
string_of [] = String.[]
string_of (c ∷ s) = String.◌∷◌ (to_char c) (string_of s)

unfoldable pub trim_left : Text → Text
unfolding is_space
trim_left [] = []
trim_left (c ∷ s) = if is_space c then trim_left s else c ∷ s

-- `strings.TrimSpace`.
unfoldable pub trim_space : Text → Text
unfolding trim_left
trim_space s = reverse (trim_left (reverse (trim_left s)))
