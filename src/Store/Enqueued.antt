-- ===== src/Store/Enqueued.antt =====
-- The table of enqueued jobs and the statements of PostgresEnqueuedJobStore
-- (internal/store/postgres/postgres_enqueued_job_store.go). Each operation takes the failure of the
-- database, if there is one: then the statement changes nothing and the error is returned.
-- `now` is the database's clock.
pub mod Bulk
pub mod Ops
pub mod Locking
pub mod Due
pub mod Paging
pub mod Recovery
use go_fire.Base.{
  ℕ, suc, ◌+◌, ◌-◌, ◌*◌, Bool, true, false, not, ◌&&◌, ◌||◌, List, [], ◌∷◌, ◌++◌, map, Option, none,
  some, String, Error, Result, ok, err, if◌then◌else◌, leb, ltb, ◌==◌, length, select, any,
}
use go_fire.Base.Sort.{sort_by}
use go_fire.Status.{JobStatus, queued, processing, succeeded, failed, retrying, dead, is}
use go_fire.Store.Sql.{
  Time, minute, update_where, affected, delete_where, limit_offset, Rows, query_rows, scan,
}
use go_fire.Store.Page.{PaginationResult, clamp_page, offset_of, page_result}

-- A row of gofire_schema.enqueued_jobs.
pub record Row : Type 0 where
  pub id : ℕ
  pub name : String
  pub payload : String
  pub status : JobStatus
  pub attempts : ℕ
  pub max_attempts : ℕ
  pub scheduled_at : Time
  pub executed_at : Option Time
  pub last_error : Option String
  pub locked_by : Option String
  pub locked_at : Option Time
  pub created_at : Time

-- The table, and the sequence of its SERIAL column.
pub record Store : Type 0 where
  pub rows : List Row
  pub next_id : ℕ

-- types.EnqueuedJob.
pub record EnqueuedJob : Type 0 where
  pub id : ℕ
  pub name : String
  pub payload : String
  pub status : JobStatus
  pub attempts : ℕ
  pub max_attempts : ℕ
  pub scheduled_at : Time
  pub executed_at : Option Time
  pub finished_at : Option Time
  pub last_error : Option String
  pub locked_by : Option String
  pub locked_at : Option Time
  pub created_at : Time

-- types.Job, a message of the queue, with its arguments as the JSON text that Marshal makes of
-- them, or none where Marshal fails.
pub record Job : Type 0 where
  pub name : String
  pub args : Option String
  pub scheduled_at : Time

abbrev pub max_retry_attempt : ℕ
max_retry_attempt = 3

-- The columns of a SELECT: executed_at is selected twice, and read into FinishedAt too.
abbrev pub columns : Row → EnqueuedJob
columns r = record {
  id = r.id;
  name = r.name;
  payload = r.payload;
  status = r.status;
  attempts = r.attempts;
  max_attempts = r.max_attempts;
  scheduled_at = r.scheduled_at;
  executed_at = r.executed_at;
  finished_at = r.executed_at;
  last_error = r.last_error;
  locked_by = r.locked_by;
  locked_at = r.locked_at;
  created_at = r.created_at;
}

unfoldable pub map_sql_rows_to_job : Rows EnqueuedJob → Result EnqueuedJob
map_sql_rows_to_job rows = scan rows

-- A row as the INSERT statements make it, with the defaults of the table.
abbrev pub new_row : Time → ℕ → String → String → Time → Row
new_row now id name payload at = record {
  id = id;
  name = name;
  payload = payload;
  status = queued;
  attempts = 0;
  max_attempts = max_retry_attempt;
  scheduled_at = at;
  executed_at = none;
  last_error = none;
  locked_by = none;
  locked_at = none;
  created_at = now;
}

abbrev pub append_row : Row → Store → Store
append_row r s = record { rows = s.rows ++ r ∷ []; next_id = suc s.next_id }

-- `payload` is the JSON text of the arguments, none where Marshal fails.
unfoldable pub insert :
    Option Error → Time → String → Time → Option String → Store → Store × Result ℕ
insert fault now name at none s = (s, err "json: unsupported type")
insert (some e) now name at (some payload) s = (s, err e)
insert none now name at (some payload) s =
    (append_row (new_row now s.next_id name payload at) s, ok s.next_id)

-- The source calls Scan on the cursor that QueryContext returns.
unfoldable pub find_by_id : ℕ → Store → Result EnqueuedJob
unfolding map_sql_rows_to_job
find_by_id id s = map_sql_rows_to_job (query_rows (map columns (select (λ r. r.id == id) s.rows)))

unfoldable pub remove_by_id : Option Error → ℕ → Store → Store × Result (Unit {0})
unfolding affected delete_where
remove_by_id (some e) id s = (s, err e)
remove_by_id none id s =
    let hit : Row → Bool = λ r. r.id == id in
    (
      record s { rows = delete_where hit s.rows },
      (if affected hit s.rows == 0 then err "no job found with id" else ok tt),
    )

abbrev pub earlier : Option Time → Time → Bool
earlier none bound = false
earlier (some t) bound = ltb t bound

-- `locked_at < now() - interval '60 minutes'`; a NULL is not earlier than anything.
abbrev pub stale : Time → Row → Bool
stale now r = earlier r.locked_at (now - 60 * minute)

abbrev pub scheduled_by : Option Time → Row → Bool
scheduled_by none r = true
scheduled_by (some t) r = leb r.scheduled_at t

abbrev pub status_in : List JobStatus → Row → Bool
status_in [] r = true
status_in (s ∷ ss) r = any (is r.status) (s ∷ ss)

-- The WHERE clause that FetchDueJobs builds.
unfoldable pub is_due : Time → List JobStatus → Option Time → Row → Bool
is_due now statuses before r =
    scheduled_by before r && (status_in statuses r && (not (is r.status processing) || stale now r))

-- `for rows.Next()`: each round puts one row under the cursor; a row that Scan refuses is skipped.
unfoldable pub collect : List EnqueuedJob → List EnqueuedJob
unfolding map_sql_rows_to_job
collect [] = []
collect (r ∷ rs) =
    let rest = collect rs in
    elim (map_sql_rows_to_job (record { current = some r; rest = rs })) [
      | ok job ↦ job ∷ rest
      | err e ↦ rest
    ]

-- ORDER BY leaves the order of rows of one time open: `tie` ranks the rows as the database reads them for this
-- query, and may be another for the next one.
unfoldable pub fetch_due_jobs :
    Option Error
    → (Row → ℕ)
    → Time
    → ℕ
    → ℕ
    → List JobStatus
    → Option Time
    → Store
    → Result (PaginationResult EnqueuedJob)
unfolding is_due sort_by collect clamp_page offset_of page_result
fetch_due_jobs (some e) tie now page size statuses before s = err e
fetch_due_jobs none tie now page size statuses before s =
    let page' = clamp_page page in
    let found = select (is_due now statuses before) s.rows in
    let selected =
      limit_offset size (offset_of page' size)
        (sort_by (λ (r : Row). r.scheduled_at) (sort_by tie found)) in
    ok (page_result (collect (map columns selected)) (length found) page' size)

abbrev pub retryable : Row → Bool
retryable r = is r.status failed && ltb r.attempts r.max_attempts

unfoldable pub mark_retry_failed_jobs : Option Error → Time → Store → Store × Result (Unit {0})
unfolding update_where
mark_retry_failed_jobs (some e) now s = (s, err e)
mark_retry_failed_jobs none now s = (
  record s {
    rows =
        update_where retryable (λ r. record r { status = retrying; scheduled_at = now + minute })
          s.rows;
  },
  ok tt,
)

abbrev pub lockable : ℕ → Row → Bool
lockable id r = r.id == id && (is r.status queued || is r.status retrying)

abbrev pub take_lock : Time → String → Row → Row
take_lock now by r = record r {
  locked_at = some now;
  executed_at = some now;
  locked_by = some by;
  status = processing;
}

unfoldable pub lock_job : Option Error → Time → ℕ → String → Store → Store × Result Bool
unfolding update_where affected
lock_job (some e) now id by s = (s, err e)
lock_job none now id by s = (
  record s { rows = update_where (lockable id) (take_lock now by) s.rows },
  ok (ltb 0 (affected (lockable id) s.rows)),
)

unfoldable pub mark_success : Option Error → Time → ℕ → Store → Store × Result (Unit {0})
unfolding update_where
mark_success (some e) now id s = (s, err e)
mark_success none now id s = (
  record s {
    rows =
        update_where (λ r. r.id == id)
          (λ r. record r { status = succeeded; executed_at = some now }) s.rows;
  },
  ok tt,
)

-- The status that MarkFailure writes. Its parameter maxAttempts is not read.
abbrev pub failure_status : ℕ → JobStatus
failure_status attempts = if leb max_retry_attempt attempts then dead else failed

unfoldable pub mark_failure : Option Error → ℕ → String → ℕ → ℕ → Store → Store × Result (Unit {0})
unfolding update_where
mark_failure (some e) id msg attempts max_attempts s = (s, err e)
mark_failure none id msg attempts max_attempts s = (
  record s {
    rows =
        update_where (λ r. r.id == id)
          (λ r. record r {
            attempts = r.attempts + 1;
            last_error = some msg;
            status = failure_status attempts;
          })
          s.rows;
  },
  ok tt,
)

abbrev pub locked_until : Time → Option Time → Bool
locked_until now none = false
locked_until now (some t) = leb t now

-- The parameter `timeout` does not reach the statement.
unfoldable pub unlock_stale_jobs : Option Error → Time → Time → Store → Store × Result (Unit {0})
unfolding update_where
unlock_stale_jobs (some e) now timeout s = (s, err e)
unlock_stale_jobs none now timeout s = (
  record s {
    rows =
        update_where (λ r. is r.status processing && locked_until now r.locked_at)
          (λ r. record r { status = queued; locked_by = none; locked_at = none }) s.rows;
  },
  ok tt,
)

unfoldable pub count_jobs_by_status : Option Error → JobStatus → Store → Result ℕ
count_jobs_by_status (some e) status s = err e
count_jobs_by_status none status s = ok (length (select (λ (r : Row). is r.status status) s.rows))
