-- ===== src/Base/Sort/Selected.antt =====
-- Sorting and `select` commute, since equal keys keep their order.
use Prim.Native.Nat.{ℕ, ◌≤◌}
use mathlib.Core.Path.{◌≡◌, refl, sym, ap, ◌∙◌}
use mathlib.Core.Logic.{inl, inr}
use mathlib.Core.Bool.{Bool}
use mathlib.Core.List.{List, [], ◌∷◌}
use native.Mathlib.Omega.{arith}
use go_fire.Base.Lists.{All, select}
use go_fire.Base.Tests.{Bool-cases, leb, le→leb, if◌then◌else◌}
use go_fire.Base.Sort.{insert_by, sort_by}
use go_fire.Base.Sort.Laws.{IsOrdered, sort_by-IsOrdered, le-All}

module _ {ℓ} {A : Type ℓ} where
  pub All-select {κ} :
      (P : A → Type κ) (p : A → Bool) (xs : List A) → All P xs → All P (select p xs)
  All-select P p [] h = tt
  All-select P p (x ∷ xs) h = elim (Bool-cases (p x)) [
    | inl keep ↦ rw keep (h.0, All-select P p xs h.1)
    | inr skip ↦ rw skip (All-select P p xs h.1)
  ]

  insert_by-front :
      (key : A → ℕ) (x : A) (xs : List A)
      → All (λ y. key x ≤ key y) xs
      → insert_by key x xs ≡ x ∷ xs
  unfolding insert_by
  insert_by-front key x [] h = refl
  insert_by-front key x (y ∷ ys) h = rw (le→leb (key x) (key y) h.0) refl

  select-insert_by :
      (key : A → ℕ) (p : A → Bool) (x : A) (xs : List A)
      → IsOrdered key xs
      → select p (insert_by key x xs) ≡ (if p x then insert_by key x (select p xs) else select p xs)
  unfolding insert_by
  select-insert_by key p x [] h = refl
  select-insert_by key p x (y ∷ ys) h = elim (Bool-cases (leb (key x) (key y))) [
    | inl first ↦
        let behind : All (λ z. key x ≤ key z) (y ∷ ys) =
          (ground arith, le-All key (key x) (key y) ys (ground arith) h.0) in
        elim (Bool-cases (p x)) [
          | inl keep ↦
              let front =
                insert_by-front key x (select p (y ∷ ys))
                  (All-select (λ z. key x ≤ key z) p (y ∷ ys) behind) in
              rw (first, keep) (sym front)
          | inr skip ↦ rw (first, skip) refl
        ]
    | inr later ↦
        let rest = select-insert_by key p x ys h.1 in
        elim (Bool-cases (p y)) [
          | inl keeps ↦ elim (Bool-cases (p x)) [
            | inl keep ↦
                let rest' : select p (insert_by key x ys) ≡ insert_by key x (select p ys) =
                  rw keep at rest in
                rw (later, keeps, keep, later) (ap (λ zs. y ∷ zs) rest')
            | inr skip ↦
                let rest' : select p (insert_by key x ys) ≡ select p ys = rw skip at rest in
                rw (later, keeps, skip) (ap (λ zs. y ∷ zs) rest')
          ]
          | inr skips ↦ rw (later, skips) rest
        ]
  ]

  pub select-sort_by :
      (key : A → ℕ) (p : A → Bool) (xs : List A)
      → select p (sort_by key xs) ≡ sort_by key (select p xs)
  unfolding sort_by
  select-sort_by key p [] = refl
  select-sort_by key p (x ∷ xs) =
      select-insert_by key p x (sort_by key xs) (sort_by-IsOrdered key xs)
      ∙ elim (Bool-cases (p x)) [
        | inl keep ↦ rw keep (ap (insert_by key x) (select-sort_by key p xs))
        | inr skip ↦ rw skip (select-sort_by key p xs)
      ]
