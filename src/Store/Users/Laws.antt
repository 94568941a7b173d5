-- ===== src/Store/Users/Laws.antt =====
-- What Create has written, Find and FindByUsername read.
use go_fire.Base.{
  ℕ, ◌≡◌, ◌≢◌, refl, sym, ◌∙◌, Bool, true, false, List, [], ◌∷◌, ◌++◌, Option, none, some, Error,
  ok, err, arith, Bool-cases, inl, inr, Option-cases, Result-cases, any, find?,
}
use go_fire.Text.{Text}
use go_fire.Text.Same.{same_refl, same-eq}
use go_fire.Store.Sql.{delete_where}
use go_fire.Store.Users.{
  Row, Users, Bcrypt, named, violates, insert, delete_quietly, create, find, find_by_username,
}

module _ {ℓ} {A : Type ℓ} where
  find?-new :
      (p : A → Bool) (x : A) (xs : List A)
      → any p xs ≡ false
      → p x ≡ true
      → find? p (xs ++ x ∷ []) ≡ some x
  find?-new p x [] h e = rw e refl
  find?-new p x (y ∷ xs) h e = elim (Bool-cases (p y)) [
    | inl hit ↦ ground (arith, hit, h)
    | inr miss ↦ rw miss (find?-new p x xs (ground (arith, miss, h)) e)
  ]

  find?-old :
      (p : A → Bool) (x : A) (xs : List A) → p x ≡ false → find? p (xs ++ x ∷ []) ≡ find? p xs
  find?-old p x [] e = rw e refl
  find?-old p x (y ∷ xs) e = ground (arith, find?-old p x xs e)

  find?-delete :
      (p q : A → Bool)
      → ((x : A) → q x ≡ true → p x ≡ false)
      → (xs : List A) → find? p (delete_where q xs) ≡ find? p xs
  unfolding delete_where
  find?-delete p q h [] = refl
  find?-delete p q h (x ∷ xs) = elim (Bool-cases (q x)) [
    | inl hit ↦ rw (hit, h x hit) (find?-delete p q h xs)
    | inr miss ↦ rw miss (ground (arith, find?-delete p q h xs))
  ]

  find?-deleted : (q : A → Bool) (xs : List A) → find? q (delete_where q xs) ≡ none
  unfolding delete_where
  find?-deleted q [] = refl
  find?-deleted q (x ∷ xs) = elim (Bool-cases (q x)) [
    | inl hit ↦ rw hit (find?-deleted q xs)
    | inr miss ↦ rw (miss, miss) (find?-deleted q xs)
  ]

named-other : (u v : Text) → v ≢ u → (r : Row) → named u r ≡ true → named v r ≡ false
named-other u v ne r h = elim (Bool-cases (named v r)) [
  | inl same' ↦ absurd (ne (sym (same-eq r.username v same') ∙ same-eq r.username u h))
  | inr other' ↦ other'
]

-- The row that insertERT adds is the one that a SELECT by its name finds; other names are not affected.
record IsInserted (u hash : Text) (s s' : Users) (id : ℕ) : Type 0 where
  found : find? (named u) s'.rows ≡ some (record { id = id; username = u; password = hash })
  others : (v : Text) → v ≢ u → find? (named v) s'.rows ≡ find? (named v) s.rows

violates-none : (u : Text) (s : Users) → violates u s ≡ none → any (named u) s.rows ≡ false
violates-none u s h = ground arith

ok-id : {m n : ℕ} → ok m ≡ ok n → m ≡ n
ok-id h = cc

insert-IsInserted :
    (fault : Option Error) (u hash : Text) (s : Users) (id : ℕ)
    → (insert fault u hash s).1 ≡ ok id
    → IsInserted u hash s (insert fault u hash s).0 id
insert-IsInserted (some e) u hash s id h = absurd cc
insert-IsInserted none u hash s id h = elim (Option-cases (violates u s)) [
  | inr (e, bad) ↦ absurd (let h' = rw (bad, insert) at h in cc)
  | inl good ↦
      let e = ok-id (rw (good, insert) at h) in
      let row : Row = record { id = s.next_id; username = u; password = hash } in
      let free = violates-none u s good in
      rw (good, insert, ← e)
        (record {
          found = find?-new (named u) row s.rows free (same_refl u);
          others = λ v ne. find?-old (named v) row s.rows (named-other u v ne row (same_refl u));
        })
]

delete_quietly-others :
    (fault : Option Error) (u v : Text) (s : Users)
    → v ≢ u
    → find? (named v) (delete_quietly fault u s).rows ≡ find? (named v) s.rows
unfolding delete_quietly
delete_quietly-others (some e) u v s ne = refl
delete_quietly-others none u v s ne = find?-delete (named v) (named u) (named-other u v ne) s.rows

create-IsInserted :
    (b : Bcrypt) (salt : ℕ) (fault fault' : Option Error) (u p : Text) (s : Users) (id : ℕ)
    → (create b salt fault fault' u p s).1 ≡ ok id
    → (hash : Text) × (b.generate salt p ≡ ok hash)
      × IsInserted u hash s (create b salt fault fault' u p s).0 id
unfolding create
create-IsInserted b salt fault fault' u p s id h = elim (Result-cases (b.generate salt p)) [
  | inr (e, bad) ↦ absurd (let h' = rw (bad, create) at h in cc)
  | inl (hash, good) ↦
      let s₁ = delete_quietly fault u s in
      let w = insert-IsInserted fault' u hash s₁ id (rw (good, create) at h) in
      (
        hash,
        good,
        rw (good, create)
            (record {
              found = w.found;
              others = λ v ne. w.others v ne ∙ delete_quietly-others fault u v s ne;
            }),
      )
]

-- Create is an update of a map: where it returns an id, Find returns the user with the id for the
-- password, FindByUsername finds the user too, and for every other name Find returns what it returned.
pub create-found :
    (b : Bcrypt) (salt : ℕ) (fault fault' : Option Error) (u p : Text) (s : Users) (id : ℕ)
    → (create b salt fault fault' u p s).1 ≡ ok id
    → (find b none u p (create b salt fault fault' u p s).0
        ≡ ok (some (record { id = id; username = u; password = [] })))
      × (find_by_username none u (create b salt fault fault' u p s).0
          ≡ ok (some (record { id = id; username = u; password = [] })))
      × ((v q : Text)
          → v ≢ u
          → find b none v q (create b salt fault fault' u p s).0 ≡ find b none v q s)
unfolding find find_by_username
create-found b salt fault fault' u p s id h =
    let (hash, made, w) = create-IsInserted b salt fault fault' u p s id h in
    (
      rw (w.found, b.compare-generate salt p hash made) refl,
      rw w.found refl,
      λ v q ne. rw (w.others v ne) refl,
    )

create-refused :
    (b : Bcrypt) (salt : ℕ) (fault fault' : Option Error) (u p : Text) (e : Error) (s : Users)
    → b.generate salt p ≡ err e
    → create b salt fault fault' u p s ≡ (delete_quietly fault u s, err e)
unfolding create
create-refused b salt fault fault' u p e s bad = rw (bad, create) refl

-- Create deletes first: where bcrypt refuses the password, nobody has the name any more.
pub create-gone :
    (b : Bcrypt) (salt : ℕ) (fault : Option Error) (u p q : Text) (e : Error) (s : Users)
    → b.generate salt p ≡ err e
    → find b none u q (create b salt none fault u p s).0 ≡ ok none
unfolding find delete_quietly
create-gone b salt fault u p q e s bad =
    rw (create-refused b salt none fault u p e s bad, find?-deleted (named u) s.rows) refl
