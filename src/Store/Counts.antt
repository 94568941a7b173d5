-- ===== src/Store/Counts.antt =====
-- CountAllJobsGroupedByStatus of both stores: GROUP BY, and the map that the rows fill
-- (internal/store/postgres/postgres_enqueued_job_store.go, postgres_cron_job_store.go).
pub mod Laws
use go_fire.Base.{ℕ, ◌+◌, List, [], ◌∷◌, Option, none, some, Error, Result, ok, err, if◌then◌else◌}
use go_fire.Status.{JobStatus, is, all_statuses}

-- `map[state.JobStatus]int`.
abbrev pub Counts : Type 0
Counts = List (JobStatus × ℕ)

unfoldable pub lookup : JobStatus → Counts → Option ℕ
lookup s [] = none
lookup s ((t, n) ∷ m) = if is t s then some n else lookup s m

-- `result[status] = count`.
unfoldable pub put : JobStatus → ℕ → Counts → Counts
put s n [] = (s, n) ∷ []
put s n ((t, k) ∷ m) = if is t s then (t, n) ∷ m else (t, k) ∷ put s n m

bump : JobStatus → Counts → Counts
bump s [] = (s, 1) ∷ []
bump s ((t, n) ∷ m) = if is t s then (t, n + 1) ∷ m else (t, n) ∷ bump s m

-- `SELECT status, COUNT(*) … GROUP BY status`.
unfoldable pub group_by : List JobStatus → Counts
unfolding bump
group_by [] = []
group_by (s ∷ ss) = bump s (group_by ss)

-- `for rows.Next() { … result[status] = count }`.
unfoldable pub fill : Counts → Counts → Counts
unfolding put
fill [] result = result
fill ((s, n) ∷ rows) result = fill rows (put s n result)

-- `if _, ok := result[status]; !ok { result[status] = 0 }`, for each status of a list.
unfoldable pub add_missing : List JobStatus → Counts → Counts
unfolding lookup put
add_missing [] result = result
add_missing (s ∷ ss) result =
    add_missing ss (elim (lookup s result) [ none ↦ put s 0 result | some n ↦ result ])

unfoldable pub count_all_jobs_grouped_by_status : Option Error → List JobStatus → Result Counts
unfolding group_by fill add_missing
count_all_jobs_grouped_by_status (some e) statuses = err e
count_all_jobs_grouped_by_status none statuses =
    ok (add_missing all_statuses (fill (group_by statuses) []))
