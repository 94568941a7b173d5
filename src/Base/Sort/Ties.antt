-- ===== src/Base/Sort/Ties.antt =====
-- Sorting by two keys, one after the other: the first decides the order of what is equal for the second,
-- and no more.
use Prim.Native.Nat.{ℕ}
use mathlib.Core.Path.{◌≡◌, refl, ap, sym, subst, ◌∙◌}
use mathlib.Core.Logic.{inl, inr, ◌≢◌}
use mathlib.Core.Bool.{true, false}
use mathlib.Core.List.{List, [], ◌∷◌, map}
use native.Mathlib.Omega.{arith}
use go_fire.Base.Lists.{All}
use go_fire.Base.Tests.{Bool-cases, leb}
use go_fire.Base.Sort.{insert_by, sort_by}
use go_fire.Base.Sort.Laws.{sort_by-All}

module _ {ℓ} {A : Type ℓ} where
  insert_by-same :
      (key : A → ℕ) (x y : A) (xs : List A)
      → x ≡ y
      → insert_by key x (insert_by key y xs) ≡ insert_by key y (insert_by key x xs)
  insert_by-same key x y xs e =
      subst (λ a. insert_by key a (insert_by key y xs) ≡ insert_by key y (insert_by key a xs))
        (sym e) refl

  -- Two insertions commute, unless two different values have one key.
  pub insert_by-insert_by :
      (key : A → ℕ) (x y : A) (xs : List A)
      → (key x ≡ key y → x ≡ y)
      → insert_by key x (insert_by key y xs) ≡ insert_by key y (insert_by key x xs)
  unfolding insert_by
  insert_by-insert_by key x y [] same = elim (Bool-cases (leb (key x) (key y))) [
    | inl xy ↦ elim (Bool-cases (leb (key y) (key x))) [
      | inl yx ↦ rw (same (ground arith)) refl
      | inr nyx ↦ rw (xy, nyx) refl
    ]
    | inr nxy ↦ let yx : leb (key y) (key x) ≡ true = ground arith in rw (nxy, yx) refl
  ]
  insert_by-insert_by key x y (z ∷ xs) same = elim (Bool-cases (leb (key x) (key z))) [
    | inl xz ↦ elim (Bool-cases (leb (key y) (key z))) [
      | inl yz ↦ elim (Bool-cases (leb (key x) (key y))) [
        | inl xy ↦ elim (Bool-cases (leb (key y) (key x))) [
          | inl yx ↦ insert_by-same key x y (z ∷ xs) (same (ground arith))
          | inr nyx ↦ rw (xz, yz, xy, nyx) refl
        ]
        | inr nxy ↦
            let yx : leb (key y) (key x) ≡ true = ground arith in rw (xz, yz, nxy, yx, xz) refl
      ]
      | inr nyz ↦ let nyx : leb (key y) (key x) ≡ false = ground arith in rw (xz, nyz, xz, nyx) refl
    ]
    | inr nxz ↦ elim (Bool-cases (leb (key y) (key z))) [
      | inl yz ↦ let nxy : leb (key x) (key y) ≡ false = ground arith in rw (nxz, yz, nxy, nxz) refl
      | inr nyz ↦ rw (nxz, nyz, nxz) (ap (λ l. z ∷ l) (insert_by-insert_by key x y xs same))
    ]
  ]

  -- No other value of the list has the key of one of them.
  abbrev pub AreApart : (A → ℕ) → List A → Type 0
  AreApart key [] = Unit
  AreApart key (x ∷ xs) = All (λ y. key x ≢ key y) xs × AreApart key xs

  sort_by-insert_by :
      (key tie : A → ℕ) (x : A) (xs : List A)
      → All (λ y. key x ≢ key y) xs
      → sort_by key (insert_by tie x xs) ≡ insert_by key x (sort_by key xs)
  unfolding sort_by insert_by
  sort_by-insert_by key tie x [] h = refl
  sort_by-insert_by key tie x (y ∷ ys) h = elim (Bool-cases (leb (tie x) (tie y))) [
    | inl first ↦ rw first refl
    | inr later ↦ rw later (
        ap (insert_by key y) (sort_by-insert_by key tie x ys h.1)
        ∙ insert_by-insert_by key y x (sort_by key ys) (λ e. absurd (h.0 (cc (e)))))
  ]

  -- Where no two values have one key, the order before a sort does not matter.
  pub sort_by-sort_by :
      (key tie : A → ℕ) (xs : List A)
      → AreApart key xs
      → sort_by key (sort_by tie xs) ≡ sort_by key xs
  unfolding sort_by
  sort_by-sort_by key tie [] h = refl
  sort_by-sort_by key tie (x ∷ xs) h =
      sort_by-insert_by key tie x (sort_by tie xs) (sort_by-All (λ y. key x ≢ key y) tie xs h.0)
      ∙ ap (insert_by key x) (sort_by-sort_by key tie xs h.1)

  map-insert_by :
      (key : A → ℕ) (x : A) (xs : List A)
      → map key (insert_by key x xs) ≡ insert_by (λ (k : ℕ). k) (key x) (map key xs)
  unfolding insert_by
  map-insert_by key x [] = refl
  map-insert_by key x (y ∷ ys) = elim (Bool-cases (leb (key x) (key y))) [
    | inl first ↦ rw first refl
    | inr later ↦ rw later (ap (λ l. key y ∷ l) (map-insert_by key x ys))
  ]

  -- The keys of a sorted list.
  pub map-sort_by :
      (key : A → ℕ) (xs : List A) → map key (sort_by key xs) ≡ sort_by (λ (k : ℕ). k) (map key xs)
  unfolding sort_by
  map-sort_by key [] = refl
  map-sort_by key (x ∷ xs) =
      map-insert_by key x (sort_by key xs)
      ∙ ap (insert_by (λ (k : ℕ). k) (key x)) (map-sort_by key xs)

module _ {ℓ} {A : Type ℓ} where
  keys-insert_by :
      (key tie : A → ℕ) (x : A) (xs : List A)
      → sort_by (λ (k : ℕ). k) (map key (insert_by tie x xs))
        ≡ sort_by (λ (k : ℕ). k) (key x ∷ map key xs)
  unfolding insert_by sort_by
  keys-insert_by key tie x [] = refl
  keys-insert_by key tie x (y ∷ ys) = elim (Bool-cases (leb (tie x) (tie y))) [
    | inl first ↦ rw first refl
    | inr later ↦ rw later (
        ap (insert_by (λ (k : ℕ). k) (key y)) (keys-insert_by key tie x ys)
        ∙ insert_by-insert_by (λ (k : ℕ). k) (key y) (key x) _ (λ e. e))
  ]

  -- The keys of a sorted list do not depend on the order before.
  pub keys-sort_by :
      (key tie : A → ℕ) (xs : List A)
      → map key (sort_by key (sort_by tie xs)) ≡ sort_by (λ (k : ℕ). k) (map key xs)
  unfolding sort_by
  keys-sort_by key tie xs = map-sort_by key (sort_by tie xs) ∙ go xs
    where
      go :
          (xs : List A)
          → sort_by (λ (k : ℕ). k) (map key (sort_by tie xs)) ≡ sort_by (λ (k : ℕ). k) (map key xs)
      go [] = refl
      go (x ∷ xs) =
          keys-insert_by key tie x (sort_by tie xs) ∙ ap (insert_by (λ (k : ℕ). k) (key x)) (go xs)
