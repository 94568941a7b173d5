-- ===== src/Store/CronJobs.antt =====
-- The table of cron jobs and the statements of PostgresCronJobStore
-- (internal/store/postgres/postgres_cron_job_store.go). As in the store of enqueued jobs, each
-- operation takes the failure of the database, if there is one. A time of the table is what a clock in the
-- zone of the database's session shows, as now() does: the columns next_run_at and last_run_at have no zone,
-- so that they are read as this clock, and hold what the clock of the process showed that wrote them.
pub mod Ops
pub mod Upsert
pub mod Locking
pub mod Due
use Prim.Native.String.{◌++◌ as append}
use mathlib.Core.List.{reverse}
use go_fire.Base.{
  ℕ, suc, ◌-◌, ◌*◌, Bool, true, false, ◌&&◌, ◌||◌, List, [], ◌∷◌, ◌++◌, map, Option, none, some,
  String, Error, Result, ok, err, leb, ltb, ◌==◌, length, select, find?, str_eq,
}
use go_fire.Base.Sort.{sort_by}
use go_fire.Status.{JobStatus, queued, processing, succeeded, failed, retrying, other, is}
use go_fire.Store.Sql.{Time, minute, update_where, affected, limit_offset}
use go_fire.Store.Page.{PaginationResult, clamp_page, offset_of, page_result}
use go_fire.Store.Counts.{Counts, count_all_jobs_grouped_by_status}
use go_fire.Store.Enqueued.{earlier}

-- A row of gofire_schema.cron_jobs.
pub record Row : Type 0 where
  pub id : ℕ
  pub name : String
  pub status : JobStatus
  pub payload : String
  pub last_error : Option String
  pub locked_by : Option String
  pub locked_at : Option Time
  pub created_at : Time
  pub updated_at : Time
  pub last_run_at : Option Time
  pub next_run_at : Option Time
  pub is_active : Bool
  pub expression : String

-- The table, and the sequence of its SERIAL column.
pub record Store : Type 0 where
  pub rows : List Row
  pub next_id : ℕ

-- types.CronJob.
pub record CronJob : Type 0 where
  pub id : ℕ
  pub name : String
  pub payload : String
  pub status : JobStatus
  pub last_error : Option String
  pub locked_by : Option String
  pub locked_at : Option Time
  pub created_at : Time
  pub last_run_at : Option Time
  pub next_run_at : Time
  pub is_active : Bool
  pub expression : String

-- What AddOrUpdate writes of a job: when it runs next, its arguments and its expression.
pub record Schedule : Type 0 where
  pub next_run_at : Time
  pub payload : String
  pub expression : String

abbrev pub new_row : Time → ℕ → String → Schedule → Row
new_row now id name sched = record {
  id = id;
  name = name;
  status = queued;
  payload = sched.payload;
  last_error = none;
  locked_by = none;
  locked_at = none;
  created_at = now;
  updated_at = now;
  last_run_at = none;
  next_run_at = some sched.next_run_at;
  is_active = true;
  expression = sched.expression;
}

abbrev pub named : String → Row → Bool
named name r = str_eq r.name name

-- `DO UPDATE SET`.
abbrev pub reschedule : Time → Schedule → Row → Row
reschedule now sched r = record r {
  next_run_at = some sched.next_run_at;
  payload = sched.payload;
  updated_at = now;
  expression = sched.expression;
}

-- `INSERT … ON CONFLICT (name) DO UPDATE … RETURNING id`, given the row with the name, if there is
-- one. The sequence gives a number also where the row exists.
unfoldable pub upsert : Option Row → Time → String → Schedule → Store → Store × ℕ
unfolding update_where
upsert none now name sched s = (
  record { rows = s.rows ++ new_row now s.next_id name sched ∷ []; next_id = suc s.next_id },
  s.next_id,
)
upsert (some r) now name sched s = (
  record {
    rows = update_where (named name) (reschedule now sched) s.rows;
    next_id = suc s.next_id;
  },
  r.id,
)

-- `args` is the JSON text of the arguments, none where Marshal fails; `at` is what the caller's clock shows at
-- the next run.
unfoldable pub add_or_update :
    Option Error → Time → String → Time → String → Option String → Store → Store × Result ℕ
unfolding upsert
add_or_update fault now name at expr none s =
    (s, err (append "failed to marshal payload: " "json: unsupported type"))
add_or_update (some e) now name at expr (some args) s =
    (s, err (append "failed to insert or update cron job: " e))
add_or_update none now name at expr (some args) s =
    let sched : Schedule = record { next_run_at = at; payload = args; expression = expr } in
    let (s', id) = upsert (find? (named name) s.rows) now name sched s in (s', ok id)

-- Scan into a CronJob: a NULL does not fit in its NextRunAt.
abbrev pub scan_next_run : Row → Option Time → Result CronJob
scan_next_run r none = err "sql: Scan error: converting NULL to time.Time"
scan_next_run r (some t) = ok (record {
  id = r.id;
  name = r.name;
  payload = r.payload;
  status = r.status;
  last_error = r.last_error;
  locked_by = r.locked_by;
  locked_at = r.locked_at;
  created_at = r.created_at;
  last_run_at = r.last_run_at;
  next_run_at = t;
  is_active = r.is_active;
  expression = r.expression;
})

-- `for rows.Next()`: a row that Scan refuses is logged and skipped.
unfoldable pub collect : List Row → List CronJob
collect [] = []
collect (r ∷ rs) =
    let rest = collect rs in
    elim (scan_next_run r r.next_run_at) [ ok job ↦ job ∷ rest | err e ↦ rest ]

-- `next_run_at IS NULL OR next_run_at <= now()`.
abbrev pub run_is_due : Time → Option Time → Bool
run_is_due now none = true
run_is_due now (some t) = leb t now

-- The WHERE clause of FetchDueCronJobs, where AND binds more tightly than OR. `now` is what the clock of the
-- database's session shows: next_run_at, which has no zone, is compared with that.
unfoldable pub is_due : Time → Row → Bool
is_due now r =
    (r.is_active && run_is_due now r.next_run_at)
    || (is r.status queued
        || (is r.status retrying
            || (is r.status processing && earlier r.locked_at (now - 60 * minute))))

-- `ASC NULLS FIRST`.
abbrev pub nulls_first : Option Time → ℕ
nulls_first none = 0
nulls_first (some t) = suc t

unfoldable pub fetch_due_cron_jobs :
    Option Error → Time → ℕ → ℕ → Store → Result (PaginationResult CronJob)
unfolding is_due sort_by collect clamp_page offset_of page_result
fetch_due_cron_jobs (some e) now page size s = err e
fetch_due_cron_jobs none now page size s =
    let page' = clamp_page page in
    let found = select (is_due now) s.rows in
    let selected =
      limit_offset size (offset_of page' size)
        (sort_by (λ (r : Row). nulls_first r.next_run_at) found) in
    ok (page_result (collect selected) (length found) page' size)

-- `if status != ""`: the empty text stands for every status.
abbrev pub has_status : JobStatus → Row → Bool
has_status status r = is status (other "") || is r.status status

-- Rows created at the same time come in the reverse order of the table.
unfoldable pub get_all :
    Option Error → ℕ → ℕ → JobStatus → Store → Result (PaginationResult CronJob)
unfolding sort_by collect clamp_page offset_of page_result
get_all (some e) page size status s = err e
get_all none page size status s =
    let page' = clamp_page page in
    let found = select (has_status status) s.rows in
    let selected =
      limit_offset size (offset_of page' size)
        (reverse (sort_by (λ (r : Row). r.created_at) found)) in
    ok (page_result (collect selected) (length found) page' size)

unfoldable pub count_all : Option Error → Store → Result Counts
count_all fault s = count_all_jobs_grouped_by_status fault (map (λ (r : Row). r.status) s.rows)

-- An UPDATE of the row with an id.
unfoldable pub update_row : Option Error → ℕ → (Row → Row) → Store → Store × Result (Unit {0})
unfolding update_where
update_row (some e) id f s = (s, err e)
update_row none id f s = (record s { rows = update_where (λ r. r.id == id) f s.rows }, ok tt)

unfoldable pub update_job_run_times :
    Option Error → ℕ → Time → Time → Store → Store × Result (Unit {0})
unfolding update_row
update_job_run_times fault id last next =
    update_row fault id (λ r. record r { last_run_at = some last; next_run_at = some next })

unfoldable pub mark_success : Option Error → ℕ → Store → Store × Result (Unit {0})
unfolding update_row
mark_success fault id =
    update_row fault id
      (λ r. record r { status = succeeded; last_error = none; locked_at = none; locked_by = none })

unfoldable pub mark_failure : Option Error → ℕ → String → Store → Store × Result (Unit {0})
unfolding update_row
mark_failure fault id msg =
    update_row fault id (λ r. record r { status = failed; last_error = some msg })

abbrev pub lockable : ℕ → Row → Bool
lockable id r =
    r.id == id
    && (is r.status queued
        || (is r.status retrying || (is r.status succeeded || is r.status failed)))

abbrev pub take_lock : Time → String → Row → Row
take_lock now by r = record r { locked_at = some now; locked_by = some by; status = processing }

unfoldable pub lock_job : Option Error → Time → ℕ → String → Store → Store × Result Bool
unfolding update_where affected
lock_job (some e) now id by s = (s, err e)
lock_job none now id by s = (
  record s { rows = update_where (lockable id) (take_lock now by) s.rows },
  ok (ltb 0 (affected (lockable id) s.rows)),
)

unfoldable pub unlock_job : Option Error → ℕ → Store → Store × Result Bool
unfolding update_where affected
unlock_job (some e) id s = (s, err e)
unlock_job none id s = (
  record s {
    rows =
        update_where (λ r. r.id == id) (λ r. record r { locked_at = none; locked_by = none })
          s.rows;
  },
  ok (ltb 0 (affected (λ r. r.id == id) s.rows)),
)

unfoldable pub execute_change_activate_query :
    Option Error → ℕ → Bool → Store → Store × Result (Unit {0})
unfolding update_row
execute_change_activate_query fault id active =
    update_row fault id (λ r. record r { is_active = active })

unfoldable pub activate : Option Error → ℕ → Store → Store × Result (Unit {0})
unfolding execute_change_activate_query
activate fault id = execute_change_activate_query fault id true

unfoldable pub deactivate : Option Error → ℕ → Store → Store × Result (Unit {0})
unfolding execute_change_activate_query
deactivate fault id = execute_change_activate_query fault id false
