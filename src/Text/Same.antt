-- ===== src/Text/Same.antt =====
-- The test whether two texts are equal, and lookups by it.
use go_fire.Base.{◌≡◌, refl, true, [], ◌∷◌, arith}
use go_fire.Text.{Text, same}

pub same_refl : (s : Text) → same s s ≡ true
same_refl [] = refl
same_refl (c ∷ s) = ground (arith, same_refl s)

pub same-eq : (s t : Text) → same s t ≡ true → s ≡ t
same-eq [] [] h = refl
same-eq [] (d ∷ t) h = cc
same-eq (c ∷ s) [] h = cc
same-eq (c ∷ s) (d ∷ t) h = ground (arith, same-eq s t)
