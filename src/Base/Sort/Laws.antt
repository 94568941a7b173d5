-- ===== src/Base/Sort/Laws.antt =====
-- Laws of sorting, of `select`, and of `take` and `drop`.
use Prim.Native.Nat.add
use Prim.Native.Nat.{ℕ, zero, suc, ◌+◌, ◌≤◌}
use mathlib.Core.Path.{◌≡◌, refl, ap}
use mathlib.Core.Logic.{inl, inr}
use mathlib.Core.Bool.{Bool, true}
use mathlib.Core.List.{List, [], ◌∷◌, ◌++◌, Perm}
use mathlib.Core.List.Perm
use native.Mathlib.Nat.{suc-add}
use native.Mathlib.Omega.{arith}
use go_fire.Base.Lists.{All, length, select, take, drop}
use go_fire.Base.Tests.{Bool-cases, leb}
use go_fire.Base.Sort.{insert_by, sort_by}

module _ {ℓ} {A : Type ℓ} where
  pub select-All {κ} :
      (P : A → Type κ) (p : A → Bool)
      → ((x : A) → p x ≡ true → P x)
      → (xs : List A) → All P (select p xs)
  select-All P p sound [] = tt
  select-All P p sound (x ∷ xs) = elim (Bool-cases (p x)) [
    | inl keep ↦ rw keep (sound x keep, select-All P p sound xs)
    | inr skip ↦ rw skip (select-All P p sound xs)
  ]

  pub insert_by-All {κ} :
      (P : A → Type κ) (key : A → ℕ) (x : A) (xs : List A)
      → P x
      → All P xs
      → All P (insert_by key x xs)
  unfolding insert_by
  insert_by-All P key x [] h hs = (h, tt)
  insert_by-All P key x (y ∷ ys) h hs = elim (Bool-cases (leb (key x) (key y))) [
    | inl first ↦ rw first (h, hs)
    | inr later ↦ rw later (hs.0, insert_by-All P key x ys h hs.1)
  ]

  pub sort_by-All {κ} :
      (P : A → Type κ) (key : A → ℕ) (xs : List A) → All P xs → All P (sort_by key xs)
  unfolding sort_by
  sort_by-All P key [] h = tt
  sort_by-All P key (x ∷ xs) h =
      insert_by-All P key x (sort_by key xs) h.0 (sort_by-All P key xs h.1)

  pub take-All {κ} : (P : A → Type κ) (n : ℕ) (xs : List A) → All P xs → All P (take n xs)
  take-All P zero xs h = tt
  take-All P (suc n) [] h = tt
  take-All P (suc n) (x ∷ xs) h = (h.0, take-All P n xs h.1)

  pub drop-All {κ} : (P : A → Type κ) (n : ℕ) (xs : List A) → All P xs → All P (drop n xs)
  drop-All P zero xs h = h
  drop-All P (suc n) [] h = tt
  drop-All P (suc n) (x ∷ xs) h = drop-All P n xs h.1

  -- Each key is at most the keys behind it.
  abbrev pub IsOrdered : (A → ℕ) → List A → Type 0
  IsOrdered key [] = Unit
  IsOrdered key (x ∷ xs) = All (λ y. key x ≤ key y) xs × IsOrdered key xs

  pub le-All :
      (key : A → ℕ) (m n : ℕ) (xs : List A)
      → m ≤ n
      → All (λ y. n ≤ key y) xs
      → All (λ y. m ≤ key y) xs
  le-All key m n [] le h = tt
  le-All key m n (x ∷ xs) le h = (omega arith, le-All key m n xs le h.1)

  insert_by-IsOrdered :
      (key : A → ℕ) (x : A) (xs : List A) → IsOrdered key xs → IsOrdered key (insert_by key x xs)
  unfolding insert_by
  insert_by-IsOrdered key x [] h = (tt, tt)
  insert_by-IsOrdered key x (y ∷ ys) h = elim (Bool-cases (leb (key x) (key y))) [
    | inl first ↦
        rw first ((ground arith, le-All key (key x) (key y) ys (ground arith) h.0), (h.0, h.1))
    | inr later ↦ rw later (
      insert_by-All (λ z. key y ≤ key z) key x ys (ground arith) h.0,
      insert_by-IsOrdered key x ys h.1,
    )
  ]

  pub sort_by-IsOrdered : (key : A → ℕ) (xs : List A) → IsOrdered key (sort_by key xs)
  unfolding sort_by
  sort_by-IsOrdered key [] = tt
  sort_by-IsOrdered key (x ∷ xs) = insert_by-IsOrdered key x _ (sort_by-IsOrdered key xs)

  pub take-IsOrdered :
      (key : A → ℕ) (n : ℕ) (xs : List A) → IsOrdered key xs → IsOrdered key (take n xs)
  take-IsOrdered key zero xs h = tt
  take-IsOrdered key (suc n) [] h = tt
  take-IsOrdered key (suc n) (x ∷ xs) h =
      (take-All (λ y. key x ≤ key y) n xs h.0, take-IsOrdered key n xs h.1)

  pub drop-IsOrdered :
      (key : A → ℕ) (n : ℕ) (xs : List A) → IsOrdered key xs → IsOrdered key (drop n xs)
  drop-IsOrdered key zero xs h = h
  drop-IsOrdered key (suc n) [] h = tt
  drop-IsOrdered key (suc n) (x ∷ xs) h = drop-IsOrdered key n xs h.1

  insert_by-Perm : (key : A → ℕ) (x : A) (xs : List A) → Perm (insert_by key x xs) (x ∷ xs)
  unfolding insert_by
  insert_by-Perm key x [] = Perm.refl (x ∷ [])
  insert_by-Perm key x (y ∷ ys) = elim (Bool-cases (leb (key x) (key y))) [
    | inl first ↦ rw first (Perm.refl (x ∷ y ∷ ys))
    | inr later ↦ rw later (Perm.trans (Perm.cons y (insert_by-Perm key x ys)) (Perm.swap x y ys))
  ]

  -- ORDER BY only rearranges.
  pub sort_by-Perm : (key : A → ℕ) (xs : List A) → Perm (sort_by key xs) xs
  unfolding sort_by
  sort_by-Perm key [] = Perm.refl []
  sort_by-Perm key (x ∷ xs) =
      Perm.trans (insert_by-Perm key x (sort_by key xs)) (Perm.cons x (sort_by-Perm key xs))

  length-insert_by :
      (key : A → ℕ) (x : A) (xs : List A) → length (insert_by key x xs) ≡ suc (length xs)
  unfolding insert_by
  length-insert_by key x [] = refl
  length-insert_by key x (y ∷ ys) = ground (arith, length-insert_by key x ys)

  pub length-sort_by : (key : A → ℕ) (xs : List A) → length (sort_by key xs) ≡ length xs
  unfolding sort_by
  length-sort_by key [] = refl
  length-sort_by key (x ∷ xs) =
      omega (arith, length-insert_by key x (sort_by key xs), length-sort_by key xs)

  pub take-add : (m n : ℕ) (xs : List A) → take (m + n) xs ≡ take m xs ++ take n (drop m xs)
  take-add zero n xs = rw add.zero
  take-add (suc m) n [] = rw suc-add (take_nil n)
    where
      take_nil : (n : ℕ) → ◌≡◌ {A = List A} [] (take n [])
      take_nil zero = refl
      take_nil (suc n) = refl
  take-add (suc m) n (x ∷ xs) = rw (suc-add, take-add m n xs)

  pub take-all : (n : ℕ) (xs : List A) → length xs ≤ n → take n xs ≡ xs
  take-all zero [] h = refl
  take-all zero (x ∷ xs) h = absurd (omega arith)
  take-all (suc n) [] h = refl
  take-all (suc n) (x ∷ xs) h = ap (λ ys. x ∷ ys) (take-all n xs (omega arith))

  drop_nil : (n : ℕ) → ◌≡◌ {A = List A} (drop n []) []
  drop_nil zero = refl
  drop_nil (suc n) = refl

  pub drop-add : (m n : ℕ) (xs : List A) → drop n (drop m xs) ≡ drop (m + n) xs
  drop-add zero n xs = rw add.zero refl
  drop-add (suc m) n [] = rw suc-add (drop_nil n)
  drop-add (suc m) n (x ∷ xs) = rw suc-add (drop-add m n xs)

  pub drop-all : (n : ℕ) (xs : List A) → length xs ≤ n → drop n xs ≡ []
  drop-all zero [] h = refl
  drop-all zero (x ∷ xs) h = absurd (omega arith)
  drop-all (suc n) [] h = refl
  drop-all (suc n) (x ∷ xs) h = drop-all n xs (omega arith)
