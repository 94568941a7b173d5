-- ===== src/Store/Enqueued/Paging.antt =====
-- How the pages of FetchDueJobs add up (internal/store/postgres/postgres_enqueued_job_store.go).
use Prim.Native.Nat.mul
use mathlib.Core.Path.{◌≡⟨◌⟩◌, ◌∎}
use native.Mathlib.Decide.{dec_lt}
use native.Mathlib.Nat.{div-add-mod', mod-lt}
use go_fire.Base.{
  map-append, ltb→lt, lt→ltb, ℕ, zero, suc, ◌+◌, ◌-◌, ◌*◌, ◌≤◌, ◌<◌, ◌≡◌, refl, ap, sym, ◌∙◌, ◌↔◌,
  true, List, [], ◌∷◌, ◌++◌, map, Option, none, ok, err, arith, length, select, take, drop,
}
use go_fire.Status.{JobStatus}
use go_fire.Base.Sort.{sort_by}
use go_fire.Base.Sort.Ties.{AreApart, sort_by-sort_by, keys-sort_by, map-sort_by}
use go_fire.Store.Sql.{Time}
use go_fire.Base.Sort.Laws.{length-sort_by, take-add, take-all}
use go_fire.Store.Page.{PaginationResult, clamp_page, ceil_div, page_result}
use go_fire.Store.Enqueued.{Row, Store, EnqueuedJob, columns, is_due, fetch_due_jobs}
use go_fire.Store.Enqueued.Due.{due_rows, due, fetch_due_jobs_lem}

-- The jobs of the first `n` pages, page by page. Each page has its own order of the rows of one time.
abbrev pub pages :
    ℕ → (ℕ → Row → ℕ) → Time → ℕ → List JobStatus → Option Time → Store → List EnqueuedJob
pages zero tie now size statuses before s = []
pages (suc n) tie now size statuses before s =
    pages n tie now size statuses before s
    ++ elim (fetch_due_jobs none (tie n) now (suc n) size statuses before s) [
      | ok result ↦ result.items
      | err e ↦ []
    ]

clamp_page-suc : (n : ℕ) → clamp_page (suc n) ≡ suc n
unfolding clamp_page
clamp_page-suc n = ground arith

pred_suc : (n : ℕ) → suc n - 1 ≡ n
pred_suc n = omega arith

map-page :
    {B : Type 0} (f : EnqueuedJob → B) (size k : ℕ) (rows : List Row)
    → map f (map columns (take size (drop k rows)))
      ≡ take size (drop k (map (λ r. f (columns r)) rows))
map-page f zero zero rows = refl
map-page f (suc size) zero [] = refl
map-page f (suc size) zero (r ∷ rows) = ap (λ l. f (columns r) ∷ l) (map-page f size zero rows)
map-page f zero (suc k) [] = refl
map-page f (suc size) (suc k) [] = refl
map-page f zero (suc k) (r ∷ rows) = map-page f zero k rows
map-page f (suc size) (suc k) (r ∷ rows) = map-page f (suc size) k rows

-- Where a view of the rows has the same list on every page, whatever the ties, the pages are a part of it.
pages-take :
    {B : Type 0} (f : EnqueuedJob → B) (rows : List Row) (n : ℕ) (tie : ℕ → Row → ℕ) (now : Time)
    (size : ℕ) (statuses : List JobStatus) (before : Option Time) (s : Store)
    → ((i : ℕ)
        → map (λ r. f (columns r)) (due_rows (tie i) now statuses before s)
          ≡ map (λ r. f (columns r)) rows)
    → map f (pages n tie now size statuses before s)
      ≡ take (n * size) (map (λ r. f (columns r)) rows)
unfolding page_result
pages-take f rows zero tie now size statuses before s same = rw mul.zero refl
pages-take f rows (suc n) tie now size statuses before s same =
    rw (fetch_due_jobs_lem, map-append, pages-take f rows n tie now size statuses before s same)
      (let due = due_rows (tie n) now statuses before s in
        let g : Row → _ = λ r. f (columns r) in
        take (n * size) (map g rows)
          ++ map f (map columns (take size (drop ((clamp_page (suc n) - 1) * size) due)))
        ≡⟨ ap
            (λ k.
              take (n * size) (map g rows) ++ map f (map columns (take size (drop (k * size) due))))
            (ap (λ k. k - 1) (clamp_page-suc n) ∙ pred_suc n) ⟩
          take (n * size) (map g rows) ++ map f (map columns (take size (drop (n * size) due)))
        ≡⟨ ap (λ l. take (n * size) (map g rows) ++ l)
            (map-page f size (n * size) due ∙ ap (λ l. take size (drop (n * size) l)) (same n)) ⟩
          take (n * size) (map g rows) ++ take size (drop (n * size) (map g rows))
        ≡⟨ sym (take-add (n * size) size (map g rows)) ⟩ take (n * size + size) (map g rows)
        ≡⟨ ap (λ k. take k (map g rows)) (omega arith) ⟩ take (suc n * size) (map g rows) ∎)

ceil_div-covers : (total size : ℕ) → 0 < size → total ≤ ceil_div total size * size
unfolding ceil_div
ceil_div-covers total size h =
    omega (arith, div-add-mod' (total + size - 1) size, mod-lt (total + size - 1) h)

map_id : {B : Type 0} (xs : List B) → map (λ x. x) xs ≡ xs
map_id [] = refl
map_id (x ∷ xs) = ap (λ l. x ∷ l) (map_id xs)

-- The number of the due rows, in any order.
length-due_rows :
    (tie : Row → ℕ) (now : Time) (statuses : List JobStatus) (before : Option Time) (s : Store)
    → length (due_rows tie now statuses before s)
      ≡ length (select (is_due now statuses before) s.rows)
length-due_rows tie now statuses before s = length-sort_by _ _ ∙ length-sort_by tie _

length-map : {B : Type 0} (f : Row → B) (rows : List Row) → length (map f rows) ≡ length rows
length-map f [] = refl
length-map f (r ∷ rows) = ap suc (length-map f rows)

all_pages :
    {B : Type 0} (f : EnqueuedJob → B) (rows : List Row) (tie : ℕ → Row → ℕ) (now : Time) (size : ℕ)
    (statuses : List JobStatus) (before : Option Time) (s : Store)
    → 0 < size
    → length rows ≡ length (select (is_due now statuses before) s.rows)
    → ((i : ℕ)
        → map (λ r. f (columns r)) (due_rows (tie i) now statuses before s)
          ≡ map (λ r. f (columns r)) rows)
    → map f (
        pages
          (ceil_div (length (select (is_due now statuses before) s.rows)) size)
          tie
          now
          size
          statuses
          before
          s)
      ≡ map (λ r. f (columns r)) rows
all_pages f rows tie now size statuses before s h len same =
    let total = length (select (is_due now statuses before) s.rows) in
    pages-take f rows (ceil_div total size) tie now size statuses before s same
    ∙ take-all (ceil_div total size * size) _
        (omega (arith, ceil_div-covers total size h, len, length-map (λ r. f (columns r)) rows))

-- Where no two due jobs have one scheduled time, paging loses nothing and repeats nothing: with a positive
-- page size, the pages from the first to the last that FetchDueJobs announces are, one after the other,
-- exactly the due jobs in the order of their times, in whatever order the database reads the rows for each
-- of the pages.
pub pages_complete :
    (tie : ℕ → Row → ℕ) (now : Time) (page size : ℕ) (statuses : List JobStatus)
    (before : Option Time) (s : Store)
    → 0 < size
    → AreApart (λ (r : Row). r.scheduled_at) (due now statuses before s)
    → (result : PaginationResult EnqueuedJob) × (fetch_due_jobs none
          (tie 0)
          now
          page
          size
          statuses
          before
          s
        ≡ ok result)
      × (pages result.total_pages tie now size statuses before s
          ≡ map columns (sort_by (λ (r : Row). r.scheduled_at) (due now statuses before s)))
unfolding page_result
pages_complete tie now page size statuses before s h apart =
    let key : Row → ℕ = λ r. r.scheduled_at in
    let found = due now statuses before s in
    let rows = sort_by key found in
    (
      _,
      fetch_due_jobs_lem (tie 0) now page size statuses before s,
      sym (map_id _)
          ∙ all_pages (λ job. job) rows tie now size statuses before s h (length-sort_by key found)
              (λ i. ap (map columns) (sort_by-sort_by key (tie i) found apart)),
    )

-- Also where due jobs have one scheduled time, with a positive page size the scheduled times on the pages
-- from the first to the last are, one after the other, exactly those of the due jobs in their order, each as
-- often as there are due jobs of that time, in whatever order the database reads the rows for each page.
pub pages-times :
    (tie : ℕ → Row → ℕ) (now : Time) (page size : ℕ) (statuses : List JobStatus)
    (before : Option Time) (s : Store)
    → 0 < size
    → (result : PaginationResult EnqueuedJob) × (fetch_due_jobs none
          (tie 0)
          now
          page
          size
          statuses
          before
          s
        ≡ ok result)
      × (map
            (λ (job : EnqueuedJob). job.scheduled_at)
            (pages result.total_pages tie now size statuses before s)
          ≡ sort_by (λ t. t) (map (λ (r : Row). r.scheduled_at) (due now statuses before s)))
unfolding page_result
pages-times tie now page size statuses before s h =
    let key : Row → ℕ = λ r. r.scheduled_at in
    let found = due now statuses before s in
    (
      _,
      fetch_due_jobs_lem (tie 0) now page size statuses before s,
      all_pages (λ job. job.scheduled_at) (sort_by key found) tie now size statuses before s h
            (length-sort_by key found)
            (λ i. keys-sort_by key (tie i) found ∙ sym (map-sort_by key found))
          ∙ map-sort_by key found,
    )

pub less-ceil_div :
    (page total size : ℕ) → 0 < size → (page < ceil_div total size) ↔ (page * size < total)
unfolding ceil_div
less-ceil_div page total size h = (
  λ k.
      let m = le-mul (suc page) q size k in
      omega (arith, div-add-mod' (total + size - 1) size, mod-lt (total + size - 1) h),
  λ k. elim (dec_lt page q) [
    | yes lt ↦ lt
    | no ge ↦
        let m = le-mul q page size (omega arith) in
        absurd (omega (arith, ceil_div-covers total size h))
  ],
)
  where
    q : ℕ
    q = ceil_div total size

    le-mul : (a b c : ℕ) → a ≤ b → a * c ≤ b * c
    le-mul a b c le = grind arith

-- With a positive page size, a page announces a next one exactly when there are due jobs behind it.
pub has_next_page_iff :
    (tie : Row → ℕ) (now : Time) (page size : ℕ) (statuses : List JobStatus) (before : Option Time)
    (s : Store)
    → 0 < size
    → (result : PaginationResult EnqueuedJob) × (fetch_due_jobs none tie now page size statuses
          before s
        ≡ ok result)
      × ((result.has_next_page ≡ true) ↔ (result.page * size < result.total_items))
unfolding page_result
has_next_page_iff tie now page size statuses before s h =
    let rows = due_rows tie now statuses before s in
    let total = length (select (is_due now statuses before) s.rows) in
    let iff = less-ceil_div (clamp_page page) total size h in
    (
      page_result (map columns (take size (drop ((clamp_page page - 1) * size) rows))) total
          (clamp_page page) size,
      fetch_due_jobs_lem tie now page size statuses before s,
      (λ e. iff.0 (ltb→lt _ _ e), λ lt. lt→ltb _ _ (iff.1 lt)),
    )
