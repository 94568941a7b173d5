-- ===== src/Store/Counts/Laws.antt =====
-- What the map of counts holds.
use go_fire.Base.{
  ℕ, ◌+◌, ◌≡◌, refl, List, [], ◌∷◌, Option, none, some, ok, arith, length, select, any,
  if◌then◌else◌, ◌==◌, Bool-cases, inl, inr, not, ◌||◌,
}
use go_fire.Status.{JobStatus, is, all_statuses}
use go_fire.Status.Laws.{is-iff-eq}
use go_fire.Store.Counts.{
  Counts, lookup, put, bump, group_by, fill, add_missing, count_all_jobs_grouped_by_status,
}

-- How many of the statuses are `s`.
abbrev pub count : JobStatus → List JobStatus → ℕ
count s ss = length (select (λ t. is s t) ss)

-- What a map with one entry for each status that occurs says of `s`.
abbrev tally : ℕ → Option ℕ
tally n = if n == 0 then none else some n

lookup-put :
    (s t : JobStatus) (n : ℕ) (m : Counts)
    → lookup s (put t n m) ≡ (if is t s then some n else lookup s m)
unfolding lookup put
lookup-put s t n [] = refl
lookup-put s t n ((u, k) ∷ m) =
    ground (arith, is-iff-eq u t, is-iff-eq u s, is-iff-eq t s, lookup-put s t n m)

lookup-bump :
    (s t : JobStatus) (m : Counts)
    → lookup s (bump t m)
      ≡ (if is t s then elim (lookup s m) [ none ↦ some 1 | some n ↦ some (n + 1) ] else lookup s m)
unfolding lookup bump
lookup-bump s t [] = ground arith
lookup-bump s t ((u, k) ∷ m) =
    ground (arith, is-iff-eq u t, is-iff-eq u s, is-iff-eq t s, lookup-bump s t m)

lookup-group_by :
    (s : JobStatus) (ss : List JobStatus) → lookup s (group_by ss) ≡ tally (count s ss)
unfolding group_by
lookup-group_by s [] = unfold lookup in refl
lookup-group_by s (t ∷ ss) =
    ground
      (arith, lookup-bump s t (group_by ss), lookup-group_by s ss, is-iff-eq s t, is-iff-eq t s)

-- No status stands twice.
abbrev Distinct : Counts → Type 0
Distinct [] = Unit
Distinct ((t, n) ∷ m) = (lookup t m ≡ none) × Distinct m

bump-Distinct : (t : JobStatus) (m : Counts) → Distinct m → Distinct (bump t m)
unfolding bump lookup
bump-Distinct t [] h = (refl, tt)
bump-Distinct t ((u, k) ∷ m) h = elim (Bool-cases (is u t)) [
  | inl same ↦ rw same (h.0, h.1)
  | inr new ↦
      rw new (
        ground (arith, h.0, lookup-bump u t m, is-iff-eq u t, is-iff-eq t u),
        bump-Distinct t m h.1,
      )
]

group_by-Distinct : (ss : List JobStatus) → Distinct (group_by ss)
unfolding group_by
group_by-Distinct [] = tt
group_by-Distinct (s ∷ ss) = bump-Distinct s (group_by ss) (group_by-Distinct ss)

-- The entry of the first map that has one.
abbrev first : Option ℕ → Option ℕ → Option ℕ
first none o = o
first (some n) o = some n

lookup-fill :
    (s : JobStatus) (rows m : Counts)
    → Distinct rows
    → lookup s (fill rows m) ≡ first (lookup s rows) (lookup s m)
unfolding fill
lookup-fill s [] m h = unfold lookup in refl
lookup-fill s ((t, n) ∷ rows) m h = ground (
  arith,
  lookup-fill s rows (put t n m) h.1,
  lookup-put s t n m,
  lookup-cons s t n rows,
  is-iff-eq t s,
  h.0,
)
  where
    lookup-cons :
        (s t : JobStatus) (n : ℕ) (m : Counts)
        → lookup s ((t, n) ∷ m) ≡ (if is t s then some n else lookup s m)
    lookup-cons s t n m = unfold lookup in refl

lookup-add_missing :
    (s : JobStatus) (ss : List JobStatus) (m : Counts)
    → lookup s (add_missing ss m) ≡ first (lookup s m) (if any (is s) ss then some 0 else none)
unfolding add_missing
lookup-add_missing s [] m = ground arith
lookup-add_missing s (t ∷ ss) m = ground (
  arith,
  lookup-add_missing s ss m,
  lookup-add_missing s ss (put t 0 m),
  lookup-put s t 0 m,
  is-iff-eq t s,
  is-iff-eq s t,
)

-- The map that CountAllJobsGroupedByStatus returns has, for every status, the number of rows with
-- it; the six statuses are always there, any other only if a row has it.
pub lookup-count_all :
    (ss : List JobStatus)
    → (m : Counts) × (count_all_jobs_grouped_by_status none ss ≡ ok m)
      × ((s : JobStatus)
          → lookup s m ≡ (
              if any (is s) all_statuses || not (count s ss == 0) then some (count s ss) else none))
unfolding count_all_jobs_grouped_by_status
lookup-count_all ss = (
  add_missing all_statuses (fill (group_by ss) []),
  refl,
  λ s. ground (
    arith,
    lookup-add_missing s all_statuses (fill (group_by ss) []),
    lookup-fill s (group_by ss) [] (group_by-Distinct ss),
    lookup-group_by s ss,
    lookup-nil s,
  ),
)
  where
    lookup-nil : (s : JobStatus) → lookup s [] ≡ none
    lookup-nil s = unfold lookup in refl
