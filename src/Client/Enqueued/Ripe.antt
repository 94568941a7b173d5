-- ===== src/Client/Enqueued/Ripe.antt =====
-- The jobs whose time had come at an earlier time, among those that a round of the worker finds.
use go_fire.Base.{
  ℕ, zero, suc, ◌-◌, ◌≤◌, ◌<◌, ◌≡◌, refl, ap, ◌∙◌, false, ◌&&◌, List, [], ◌∷◌, ◌++◌, map, some,
  arith, length, select, take, drop, All, Bool-cases, inl, inr, leb,
}
use go_fire.Base.Sort.{sort_by}
use go_fire.Base.Sort.Laws.{IsOrdered, drop-All}
use go_fire.Base.Sort.Selected.{select-sort_by}
use go_fire.Store.Sql.{Time}
use go_fire.Store.Enqueued.{Row, Store, EnqueuedJob, columns, is_due}
use go_fire.Store.Enqueued.Due.{work_statuses}
use go_fire.Client.Enqueued.Waiting.{waiting}

-- The rows whose time has come at `t`.
abbrev pub ripe : Time → List Row → List Row
ripe t rows = select (λ r. leb r.scheduled_at t) rows

is_due-ripe :
    (db_now db_now' t now : Time) (r : Row)
    → t ≤ now
    → is_due db_now work_statuses (some t) r
      ≡ (is_due db_now' work_statuses (some now) r && leb r.scheduled_at t)
unfolding is_due
is_due-ripe db_now db_now' t now r le = ground arith

-- The due jobs of an earlier time: a job that waits is not being processed, so that the database's clock
-- does not matter.
ripe-due :
    (db_now db_now' t now : Time) (rows : List Row)
    → t ≤ now
    → ripe t (select (is_due db_now' work_statuses (some now)) rows)
      ≡ select (is_due db_now work_statuses (some t)) rows
ripe-due db_now db_now' t now [] le = refl
ripe-due db_now db_now' t now (r ∷ rows) le =
    let same = is_due-ripe db_now db_now' t now r le in
    let rest = ripe-due db_now db_now' t now rows le in
    elim (Bool-cases (is_due db_now' work_statuses (some now) r)) [
      | inl was ↦ elim (Bool-cases (leb r.scheduled_at t)) [
        | inl come ↦ rw (same, was, come) (ap (λ l. r ∷ l) rest)
        | inr not_yet ↦ rw (same, was, not_yet) rest
      ]
      | inr was ↦ rw (same, was) rest
    ]

pub ripe-waiting :
    (tie : Row → ℕ) (db_now db_now' t now : Time) (s : Store)
    → t ≤ now
    → ripe t (waiting tie db_now' now s) ≡ waiting tie db_now t s
ripe-waiting tie db_now db_now' t now s le =
    let key : Row → ℕ = λ r. r.scheduled_at in
    let found = select (is_due db_now' work_statuses (some now)) s.rows in
    select-sort_by key (λ r. leb r.scheduled_at t) (sort_by tie found)
    ∙ ap (sort_by key) (select-sort_by tie (λ r. leb r.scheduled_at t) found)
    ∙ ap (λ rows. sort_by key (sort_by tie rows)) (ripe-due db_now db_now' t now s.rows le)

ripe-none :
    (t n : Time) (rows : List Row)
    → t < n
    → All (λ (r : Row). n ≤ r.scheduled_at) rows
    → ripe t rows ≡ []
ripe-none t n [] lt h = refl
ripe-none t n (r ∷ rows) lt h =
    let late : leb r.scheduled_at t ≡ false = ground (arith, h.0) in
    rw late (ripe-none t n rows lt h.1)

drop_nil : (n : ℕ) → ◌≡◌ {A = List Row} [] (drop n [])
drop_nil zero = refl
drop_nil (suc n) = refl

pub ripe-drop :
    (t : Time) (n : ℕ) (rows : List Row)
    → IsOrdered (λ (r : Row). r.scheduled_at) rows
    → ripe t (drop n rows) ≡ drop n (ripe t rows)
ripe-drop t zero rows h = refl
ripe-drop t (suc n) [] h = refl
ripe-drop t (suc n) (r ∷ rows) h = elim (Bool-cases (leb r.scheduled_at t)) [
  | inl come ↦ rw come (ripe-drop t n rows h.1)
  | inr late ↦
      let lt : t < r.scheduled_at = ground arith in
      let behind = ripe-none t r.scheduled_at rows lt h.0 in
      rw (late, behind, ripe-none t r.scheduled_at (drop n rows) lt (drop-All _ n rows h.0)) refl
]

pub ripe-take-drop :
    (t : Time) (n : ℕ) (rows : List Row)
    → ripe t (take n rows) ++ ripe t (drop n rows) ≡ ripe t rows
ripe-take-drop t zero rows = refl
ripe-take-drop t (suc n) [] = refl
ripe-take-drop t (suc n) (r ∷ rows) = elim (Bool-cases (leb r.scheduled_at t)) [
  | inl come ↦ rw come (ap (λ l. r ∷ l) (ripe-take-drop t n rows))
  | inr late ↦ rw late (ripe-take-drop t n rows)
]

pub length-drop : (n : ℕ) (rows : List Row) → length (drop n rows) ≡ length rows - n
length-drop zero rows = omega arith
length-drop (suc n) [] = omega arith
length-drop (suc n) (r ∷ rows) = omega (arith, length-drop n rows)

-- The jobs whose time has come at `t`.
abbrev pub ripe_jobs : Time → List EnqueuedJob → List EnqueuedJob
ripe_jobs t jobs = select (λ job. leb job.scheduled_at t) jobs

pub ripe_jobs-columns :
    (t : Time) (rows : List Row) → ripe_jobs t (map columns rows) ≡ map columns (ripe t rows)
ripe_jobs-columns t [] = refl
ripe_jobs-columns t (r ∷ rows) = elim (Bool-cases (leb r.scheduled_at t)) [
  | inl come ↦ rw come (ap (λ l. columns r ∷ l) (ripe_jobs-columns t rows))
  | inr late ↦ rw late (ripe_jobs-columns t rows)
]

pub ripe_jobs-append :
    (t : Time) (xs ys : List EnqueuedJob)
    → ripe_jobs t (xs ++ ys) ≡ ripe_jobs t xs ++ ripe_jobs t ys
ripe_jobs-append t [] ys = refl
ripe_jobs-append t (x ∷ xs) ys = elim (Bool-cases (leb x.scheduled_at t)) [
  | inl come ↦ rw come (ap (λ l. x ∷ l) (ripe_jobs-append t xs ys))
  | inr late ↦ rw late (ripe_jobs-append t xs ys)
]
