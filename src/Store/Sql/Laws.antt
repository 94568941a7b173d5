-- ===== src/Store/Sql/Laws.antt =====
-- Laws of `UPDATE … WHERE`.
use go_fire.Base.{◌≡◌, refl, inl, inr, Bool, true, List, [], ◌∷◌, map, arith, All, Bool-cases}
use go_fire.Store.Sql.{update_where}

module _ {ℓ} {A : Type ℓ} where
  -- A column that no update writes is unchanged by it.
  pub map-update_where {κ} :
      {B : Type κ} (g : A → B) (p : A → Bool) (f : A → A)
      → ((x : A) → g (f x) ≡ g x)
      → (xs : List A) → map g (update_where p f xs) ≡ map g xs
  unfolding update_where
  map-update_where g p f keep [] = refl
  map-update_where g p f keep (x ∷ xs) = ground (arith, keep x, map-update_where g p f keep xs)

  pub All-update_where {κ} :
      (P : A → Type κ) (p : A → Bool) (f : A → A)
      → ((x : A) → p x ≡ true → P x → P (f x))
      → (xs : List A) → All P xs
      → All P (update_where p f xs)
  unfolding update_where
  All-update_where P p f keep [] h = tt
  All-update_where P p f keep (x ∷ xs) h = elim (Bool-cases (p x)) [
    | inl yes' ↦ rw yes' (keep x yes' h.0, All-update_where P p f keep xs h.1)
    | inr no' ↦ rw no' (h.0, All-update_where P p f keep xs h.1)
  ]
