-- ===== src/Client/Enqueued/Waiting.antt =====
-- The jobs that wait for the worker, and what the lock of one of them does to the others.
use go_fire.Base.{
  ℕ, zero, suc, ◌≤◌, ◌<◌, ◌≡◌, ◌≢◌, refl, sym, ap, ◌∙◌, inl, inr, Bool, true, false, not, List, [],
  ◌∷◌, map, none, some, String, ok, arith, All, Bool-cases, leb, ◌==◌, ==_iff, lt→ltb, length,
  select, take, drop,
}
use go_fire.Base.Sort.{insert_by, sort_by}
use go_fire.Base.Sort.Laws.{insert_by-All, sort_by-All}
use go_fire.Base.Sort.Selected.{All-select, select-sort_by}
use go_fire.Store.Sql.{Time, update_where, affected}
use go_fire.Store.Enqueued.{Row, Store, columns, is_due, lockable, take_lock, lock_job}
use go_fire.Store.Enqueued.Ops.{Rising, IsWellFormed}
use go_fire.Store.Enqueued.Due.{due_rows, work_statuses}
use go_fire.Store.Enqueued.{EnqueuedJob}
use go_fire.Client.Enqueued.{Lap, start_jobs}
use go_fire.Client.Enqueued.Rounds.{lock_job-IsWellFormed}

abbrev pub AreDistinctRows : List Row → Type 0
AreDistinctRows [] = Unit
AreDistinctRows (r ∷ rows) = All (λ (x : Row). r.id ≢ x.id) rows × AreDistinctRows rows

All-weaken :
    {P Q : Row → Type 0} (rows : List Row) → ((r : Row) → P r → Q r) → All P rows → All Q rows
All-weaken [] f h = tt
All-weaken (r ∷ rows) f h = (f r h.0, All-weaken rows f h.1)

Rising-above :
    (lo : ℕ) (rows : List Row) (hi : ℕ)
    → Rising lo (map (λ (r : Row). r.id) rows) hi
    → All (λ (r : Row). lo ≤ r.id) rows
Rising-above lo [] hi h = tt
Rising-above lo (r ∷ rows) hi h =
    (h.0, All-weaken rows (λ x le. omega arith) (Rising-above (suc r.id) rows hi h.1))

pub rows-AreDistinct :
    (lo : ℕ) (rows : List Row) (hi : ℕ)
    → Rising lo (map (λ (r : Row). r.id) rows) hi
    → AreDistinctRows rows
rows-AreDistinct lo [] hi h = tt
rows-AreDistinct lo (r ∷ rows) hi h = (
  All-weaken rows (λ x le e. absurd (omega arith)) (Rising-above (suc r.id) rows hi h.1),
  rows-AreDistinct (suc r.id) rows hi h.1,
)

select-AreDistinct :
    (p : Row → Bool) (rows : List Row) → AreDistinctRows rows → AreDistinctRows (select p rows)
select-AreDistinct p [] h = tt
select-AreDistinct p (r ∷ rows) h = elim (Bool-cases (p r)) [
  | inl keep ↦
      rw keep (All-select (λ (x : Row). r.id ≢ x.id) p rows h.0, select-AreDistinct p rows h.1)
  | inr skip ↦ rw skip (select-AreDistinct p rows h.1)
]

insert_by-AreDistinct :
    (key : Row → ℕ) (r : Row) (rows : List Row)
    → AreDistinctRows (r ∷ rows)
    → AreDistinctRows (insert_by key r rows)
unfolding insert_by
insert_by-AreDistinct key r [] h = h
insert_by-AreDistinct key r (x ∷ rows) h = elim (Bool-cases (leb (key r) (key x))) [
  | inl first ↦ rw first h
  | inr later ↦ rw later (
    insert_by-All (λ (y : Row). x.id ≢ y.id) key r rows (λ e. h.0.0 (sym e)) h.1.0,
    insert_by-AreDistinct key r rows (h.0.1, h.1.1),
  )
]

sort_by-AreDistinct :
    (key : Row → ℕ) (rows : List Row) → AreDistinctRows rows → AreDistinctRows (sort_by key rows)
unfolding sort_by
sort_by-AreDistinct key [] h = tt
sort_by-AreDistinct key (r ∷ rows) h =
    insert_by-AreDistinct key r (sort_by key rows)
      (sort_by-All (λ (x : Row). r.id ≢ x.id) key rows h.0, sort_by-AreDistinct key rows h.1)

-- The due rows of the worker, by its clock.
abbrev pub waiting : (Row → ℕ) → Time → Time → Store → List Row
waiting tie db_now now s = due_rows tie db_now work_statuses (some now) s

pub waiting-AreDistinct :
    (tie : Row → ℕ) (db_now now : Time) (s : Store)
    → IsWellFormed s
    → AreDistinctRows (waiting tie db_now now s)
waiting-AreDistinct tie db_now now s h =
    sort_by-AreDistinct (λ (r : Row). r.scheduled_at) _
      (sort_by-AreDistinct tie _
        (select-AreDistinct _ s.rows (rows-AreDistinct 1 s.rows s.next_id h)))

module _ (tie : Row → ℕ) (db_now now at : Time) (by : String) (id : ℕ) where
  due : Row → Bool
  due r = is_due db_now work_statuses (some now) r

  due-lockable : (r : Row) → due r ≡ true → r.id ≡ id → lockable id r ≡ true
  unfolding due is_due
  due-lockable r h e = ground arith

  due-other : (r : Row) → due r ≡ true → lockable id r ≡ false → (r.id == id) ≡ false
  due-other r was keeps = elim (Bool-cases (r.id == id)) [
    | inl hit ↦
        absurd (let k = due-lockable r was ((==_iff r.id id).0 hit) in let k' = rw keeps at k in cc)
    | inr miss ↦ miss
  ]

  locked-due : (r : Row) → due (take_lock at by r) ≡ false
  unfolding due is_due
  locked-due r = ground arith

  select-lock :
      (rows : List Row)
      → select due (update_where (lockable id) (take_lock at by) rows)
        ≡ select (λ (r : Row). not (r.id == id)) (select due rows)
  unfolding update_where
  select-lock [] = refl
  select-lock (r ∷ rows) = elim (Bool-cases (lockable id r)) [
    | inl locks ↦
        let own : (r.id == id) ≡ true = ground arith in
        rw (locks, locked-due r)
          (elim (Bool-cases (due r)) [
            | inl was ↦ rw (was, own) (select-lock rows)
            | inr was ↦ rw was (select-lock rows)
          ])
    | inr keeps ↦ rw keeps (elim (Bool-cases (due r)) [
      | inl was ↦
          let other : (r.id == id) ≡ false = due-other r was keeps in
          rw (was, other) (ap (λ xs. r ∷ xs) (select-lock rows))
      | inr was ↦ rw was (select-lock rows)
    ])
  ]

  unlockable-due :
      (rows : List Row)
      → length (select (lockable id) rows) ≡ 0
      → All (λ (r : Row). r.id ≢ id) (select due rows)
  unlockable-due [] h = tt
  unlockable-due (r ∷ rows) h = elim (Bool-cases (lockable id r)) [
    | inl locks ↦ absurd (let h' = rw locks at h in omega arith)
    | inr keeps ↦
        let rest = unlockable-due rows (rw keeps at h) in
        elim (Bool-cases (due r)) [
          | inl was ↦ rw was ((λ e. absurd (let k = due-lockable r was e in cc)), rest)
          | inr was ↦ rw was rest
        ]
  ]

  select-others :
      (rows : List Row)
      → All (λ (x : Row). id ≢ x.id) rows
      → select (λ (r : Row). not (r.id == id)) rows ≡ rows
  select-others [] h = refl
  select-others (x ∷ rows) h =
      let ne : (x.id == id) ≡ false = ground (arith, h.0) in
      rw ne (ap (λ xs. x ∷ xs) (select-others rows h.1))

  waiting-affected :
      (s : Store) (r : Row) (rest : List Row)
      → waiting tie db_now now s ≡ r ∷ rest
      → r.id ≡ id
      → 0 < length (select (lockable id) s.rows)
  unfolding due
  waiting-affected s r rest w e = elim (Bool-cases (length (select (lockable id) s.rows) == 0)) [
    | inl none' ↦
        let others =
          sort_by-All (λ (x : Row). x.id ≢ id) (λ (x : Row). x.scheduled_at) _
            (sort_by-All (λ (x : Row). x.id ≢ id) tie (select due s.rows)
              (unlockable-due s.rows (ground arith))) in
        let others' : All (λ (x : Row). x.id ≢ id) (r ∷ rest) = rw w at others in
        absurd (others'.0 e)
    | inr some' ↦ ground arith
  ]

  -- A job that waits can be locked, and the lock takes it, and nothing else, from those that wait.
  lock_job-waiting :
      (s : Store) (r : Row) (rest : List Row)
      → IsWellFormed s
      → waiting tie db_now now s ≡ r ∷ rest
      → r.id ≡ id
      → ((lock_job none at id by s).1 ≡ ok true)
        × (waiting tie db_now now (lock_job none at id by s).0 ≡ rest)
  unfolding lock_job affected due
  lock_job-waiting s r rest wf w e =
      let key : Row → ℕ = λ r. r.scheduled_at in
      let distinct : AreDistinctRows (r ∷ rest) =
        rw w at (waiting-AreDistinct tie db_now now s wf) in
      let own : (r.id == id) ≡ true = ground arith in
      let tail : select (λ (r : Row). not (r.id == id)) (r ∷ rest) ≡ rest =
        rw own (select-others rest (rw e at distinct.0)) in
      (
        ap ok (lt→ltb 0 _ (waiting-affected s r rest w e)),
        ap (λ rows. sort_by key (sort_by tie rows)) (select-lock s.rows)
            ∙ ap (sort_by key)
                (sym (select-sort_by tie (λ (r : Row). not (r.id == id)) (select due s.rows)))
            ∙ sym (
                select-sort_by key (λ (r : Row). not (r.id == id))
                  (sort_by tie (select due s.rows)))
            ∙ ap (select (λ (r : Row). not (r.id == id))) w
            ∙ tail,
      )

-- Nothing fails, and nobody else calls the store.
abbrev pub IsCalmLap : Lap → Type 0
IsCalmLap lap = (lap.fault ≡ none) × (lap.meanwhile ≡ []) × (lap.is_cancelled ≡ false)

-- A round of the loop over the jobs that wait.
pub start_jobs-waiting :
    (n : ℕ) (tie : Row → ℕ) (db_now now : Time) (laps : EnqueuedJob → Lap) (by : String) (s : Store)
    → IsWellFormed s
    → ((job : EnqueuedJob) → IsCalmLap (laps job))
    → let w = waiting tie db_now now s in
      let x = start_jobs laps by (map columns (take n w)) s in
      (x.1 ≡ map columns (take n w)) × (waiting tie db_now now x.0 ≡ drop n w) × IsWellFormed x.0
unfolding start_jobs
start_jobs-waiting n tie db_now now laps by s wf calm = go n (waiting tie db_now now s) s wf refl
  where
    go :
        (n : ℕ) (rows : List Row) (s : Store)
        → IsWellFormed s
        → waiting tie db_now now s ≡ rows
        → let x = start_jobs laps by (map columns (take n rows)) s in
          (x.1 ≡ map columns (take n rows))
          × (waiting tie db_now now x.0 ≡ drop n rows)
          × IsWellFormed x.0
    go zero rows s wf w = (refl, w, wf)
    go (suc n) [] s wf w = (refl, w, wf)
    go (suc n) (r ∷ rows) s wf w =
        let lap = laps (columns r) in
        let (fine, quiet, goes) = calm (columns r) in
        let (locks, w') = lock_job-waiting tie db_now now lap.now by r.id s r rows wf w refl in
        let (started, left, wf') =
          go n rows (lock_job none lap.now r.id by s).0
            (lock_job-IsWellFormed none lap.now r.id by s wf) w' in
        rw (fine, quiet, locks, goes) (ap (λ l. columns r ∷ l) started, left, wf')
