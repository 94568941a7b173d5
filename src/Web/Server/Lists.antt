-- ===== src/Web/Server/Lists.antt =====
-- The handlers of the lists of jobs and of the charts (web/route_handler.go), and the action that the
-- list of enqueued jobs takes.
use Prim.Native.String.{◌++◌ as append}
use go_fire.Base.{ℕ, List, [], ◌∷◌, map, Option, none, some, Error, Result, ok, err, if◌then◌else◌}
use go_fire.Text.{Text, codes, same}
use go_fire.Text.Chars.{string_of, trim_space}
use go_fire.Status.{JobStatus, of_string}
use go_fire.Store.Page.{PaginationResult}
use go_fire.Store.Counts.{Counts, count_all_jobs_grouped_by_status}
use go_fire.Store.Enqueued.{EnqueuedJob, remove_by_id, fetch_due_jobs}
use go_fire.Store.Enqueued
use go_fire.Store.CronJobs.{CronJob, get_all, count_all}
use go_fire.Cron.Int.{atoi}
use go_fire.Web.Http.{
  Request, Writer, enqueued_page, cron_page, charts_page, page, counts, fresh, set_cookie, write,
  write_header, http_error, redirect, value, form_value, get_page_number,
}
use go_fire.Web.Server.{Tables, Faults, Handler, notice}

abbrev pub page_size : ℕ
page_size = 15

abbrev pub ignore_error : Result Counts → Option Counts
ignore_error (ok m) = some m
ignore_error (err e) = none

unfoldable pub status_param : Request → Text
unfolding trim_space value
status_param r = trim_space (value (codes "status") r.query)

abbrev pub removed_message : Text
removed_message = codes "Job removed successfully!"

-- The table, the response so far, and the error that is returned.
abbrev pub Outcome : Type 0
Outcome = Enqueued.Store × Writer × Result (Unit {0})

unfoldable pub announce_removal : Request → Writer → Writer
unfolding notice set_cookie redirect
announce_removal r w =
    redirect r (codes "/enqueued") (set_cookie (notice (codes "flash") removed_message) w)

abbrev pub after_removal : Request → Writer → Enqueued.Store × Result (Unit {0}) → Outcome
after_removal r w (s, ok u) = (s, announce_removal r w, ok tt)
after_removal r w (s, err e) = (s, w, err (append "failed to remove job: " e))

abbrev pub remove_parsed : Option Error → Request → Writer → Option ℕ → Enqueued.Store → Outcome
remove_parsed fault r w none s = (s, w, err "invalid job id")
remove_parsed fault r w (some id) s = after_removal r w (remove_by_id fault id s)

unfoldable pub handle_dashboard_action : Option Error → Request → Writer → Enqueued.Store → Outcome
unfolding trim_space form_value remove_by_id atoi announce_removal
handle_dashboard_action fault r w s =
    let action = trim_space (form_value r (codes "action")) in
    if same action []
    then (s, w, ok tt)
    else if same action (codes "remove")
    then remove_parsed fault r w (atoi (form_value r (codes "id"))) s
    else (s, announce_removal r w, ok tt)

abbrev pub statuses_of : Text → List JobStatus
unfolding of_string string_of
statuses_of [] = []
statuses_of (c ∷ s) = of_string (string_of (c ∷ s)) ∷ []

abbrev pub show_enqueued :
    JobStatus → Option Counts → Writer → Result (PaginationResult EnqueuedJob) → Writer
show_enqueued status m w (ok jobs) = write (page (enqueued_page jobs status m)) w
show_enqueued status m w (err e) = http_error "Failed to fetch jobs" 500 w

abbrev pub page_of : Faults → Request → Enqueued.Store → Result (PaginationResult EnqueuedJob)
page_of f r s =
    fetch_due_jobs f.fetch f.tie f.now (get_page_number r) page_size (statuses_of (status_param r))
      none s

abbrev pub list_enqueued : Faults → Request → Enqueued.Store → Writer → Writer
list_enqueued f r s w =
    let all_jobs =
      count_all_jobs_grouped_by_status f.count (map (λ (x : Enqueued.Row). x.status) s.rows) in
    show_enqueued (of_string (string_of (status_param r))) (ignore_error all_jobs) w (page_of f r s)

abbrev pub enqueued_after : Faults → Request → Tables → Outcome → Tables × Writer
enqueued_after f r t (s, w, err e) = (record t { enqueued = s }, http_error e 400 w)
enqueued_after f r t (s, w, ok u) = (record t { enqueued = s }, list_enqueued f r s w)

unfoldable pub enqueued : Handler
unfolding handle_dashboard_action status_param of_string string_of count_all_jobs_grouped_by_status
    fetch_due_jobs get_page_number write http_error
enqueued f r t = enqueued_after f r t (handle_dashboard_action f.remove r fresh t.enqueued)

abbrev show_cron : JobStatus → Option Counts → Result (PaginationResult CronJob) → Writer
show_cron status m (ok jobs) = write (page (cron_page jobs status m)) fresh
show_cron status m (err e) = http_error "Failed to fetch jobs" 500 fresh

unfoldable pub cron_jobs : Handler
unfolding status_param of_string string_of get_all count_all get_page_number write http_error
cron_jobs f r t =
    let status = of_string (string_of (status_param r)) in
    (
      t,
      show_cron status (ignore_error (count_all f.count_cron t.cron))
          (get_all f.fetch (get_page_number r) page_size status t.cron),
    )

abbrev chart_counts : Result Counts → Result Counts → Writer
chart_counts (err e) cron = http_error "Failed to get enqueued jobs" 500 fresh
chart_counts (ok m) (err e) = http_error "Failed to get cron jobs" 500 fresh
chart_counts (ok m) (ok m') = write (counts m m') (write_header 200 fresh)

unfoldable pub charts : Handler
unfolding value count_all_jobs_grouped_by_status count_all write write_header http_error
charts f r t =
    if same (value (codes "loadCharts") r.query) [] then (t, write (page charts_page) fresh) else (
      t,
      chart_counts
          (count_all_jobs_grouped_by_status f.count
            (map (λ (x : Enqueued.Row). x.status) t.enqueued.rows))
          (count_all f.count_cron t.cron),
    )
