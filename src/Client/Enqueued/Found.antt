-- ===== src/Client/Enqueued/Found.antt =====
-- The row of one job in the table, and what an UPDATE does to it.
use go_fire.Base.{
  ℕ, ◌<◌, ◌≡◌, ◌≢◌, refl, ap, ◌∙◌, inl, inr, Bool, true, false, List, [], ◌∷◌, some, arith, All,
  Bool-cases, if◌then◌else◌, ◌==◌, ==_iff, length, select, find?,
}
use go_fire.Store.Sql.{update_where}
use go_fire.Store.Enqueued.{Row, lockable}
use go_fire.Client.Enqueued.Waiting.{AreDistinctRows}

abbrev pub has_id : ℕ → Row → Bool
has_id id r = r.id == id

some-inj : {x y : Row} → some x ≡ some y → x ≡ y
some-inj h = cc

-- An UPDATE that keeps the ids acts on the row of the job.
pub find?-update_where :
    (id : ℕ) (p : Row → Bool) (f : Row → Row) (rows : List Row) {r : Row}
    → ((x : Row) → (f x).id ≡ x.id)
    → find? (has_id id) rows ≡ some r
    → find? (has_id id) (update_where p f rows) ≡ some (if p r then f r else r)
unfolding update_where
find?-update_where id p f [] keep h = absurd cc
find?-update_where id p f (x ∷ rows) {r} keep h = elim (Bool-cases (has_id id x)) [
  | inl hit ↦
      let e : x ≡ r = some-inj (rw hit at h) in
      let hit' : has_id id (if p x then f x else x) ≡ true = ground (arith, hit, keep x) in
      rw hit' (ap (λ y. some (if p y then f y else y)) e)
  | inr miss ↦
      let miss' : has_id id (if p x then f x else x) ≡ false = ground (arith, miss, keep x) in
      rw miss' (find?-update_where id p f rows keep (rw miss at h))
]

pub found-has_id :
    (id : ℕ) (rows : List Row) {r : Row} → find? (has_id id) rows ≡ some r → has_id id r ≡ true
found-has_id id [] h = absurd cc
found-has_id id (x ∷ rows) {r} h = elim (Bool-cases (has_id id x)) [
  | inl hit ↦ let e : x ≡ r = some-inj (rw hit at h) in rw (← e) hit
  | inr miss ↦ found-has_id id rows (rw miss at h)
]

pub find?-update_hit :
    (id : ℕ) (p : Row → Bool) (f : Row → Row) (rows : List Row) {r : Row}
    → ((x : Row) → (f x).id ≡ x.id)
    → p r ≡ true
    → find? (has_id id) rows ≡ some r
    → find? (has_id id) (update_where p f rows) ≡ some (f r)
find?-update_hit id p f rows {r} keep hit h = find?-update_where id p f rows keep h ∙ rw hit refl

pub found-lockable :
    (id : ℕ) (rows : List Row) {r : Row}
    → find? (has_id id) rows ≡ some r
    → lockable id r ≡ true
    → 0 < length (select (lockable id) rows)
found-lockable id [] h l = absurd cc
found-lockable id (x ∷ rows) {r} h l = elim (Bool-cases (has_id id x)) [
  | inl hit ↦
      let e : x ≡ r = some-inj (rw hit at h) in
      let l' : lockable id x ≡ true = rw e l in rw l' (omega arith)
  | inr miss ↦ let rest = found-lockable id rows (rw miss at h) l in ground (arith, rest)
]

others-unlockable :
    (id : ℕ) (rows : List Row)
    → All (λ (x : Row). id ≢ x.id) rows
    → length (select (lockable id) rows) ≡ 0
others-unlockable id [] h = refl
others-unlockable id (x ∷ rows) h =
    let free : lockable id x ≡ false = ground (arith, h.0) in
    rw free (others-unlockable id rows h.1)

pub found-unlockable :
    (id : ℕ) (rows : List Row) {r : Row}
    → AreDistinctRows rows
    → find? (has_id id) rows ≡ some r
    → lockable id r ≡ false
    → length (select (lockable id) rows) ≡ 0
found-unlockable id [] d h l = absurd cc
found-unlockable id (x ∷ rows) {r} d h l = elim (Bool-cases (has_id id x)) [
  | inl hit ↦
      let e : x ≡ r = some-inj (rw hit at h) in
      let l' : lockable id x ≡ false = rw e l in
      rw l' (others-unlockable id rows (rw ((==_iff x.id id).0 hit) at d.0))
  | inr miss ↦
      let free : lockable id x ≡ false = ground arith in
      rw free (found-unlockable id rows d.1 (rw miss at h) l)
]
