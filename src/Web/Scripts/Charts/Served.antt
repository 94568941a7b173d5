-- ===== src/Web/Scripts/Charts/Served.antt =====
-- From the tables to the charts: the handler of the counts (web/route_handler.go) and the script that
-- draws them. `wire` is what JSON makes of the map that the server sends: the entries of the object.
use go_fire.Base.{
  ℕ, ◌≡◌, refl, ap, ◌∙◌, Bool, true, false, not, ◌&&◌, List, [], ◌∷◌, map, Option, none, some,
  String, ok, All, any, if◌then◌else◌,
}
use go_fire.Text.{Text, codes, same}
use go_fire.Status.{JobStatus, to_string, is, all_statuses}
use go_fire.Store.Counts.{Counts, lookup, count_all_jobs_grouped_by_status}
use go_fire.Store.Counts.Laws.{count, lookup-count_all}
use go_fire.Store.Enqueued
use go_fire.Store.CronJobs.{count_all}
use go_fire.Store.CronJobs
use go_fire.Web.Http.{Request, Writer, Body, counts, value, write, write_header}
use go_fire.Web.Server.{Server, Tables, Faults, is_authenticated, auth_middleware}
use go_fire.Web.Server.Lists.{charts}
use go_fire.Web.Server.Routes.{serve, handle, route}
use go_fire.Web.Scripts.Charts.{
  StatusMap, Chart, blank, Answer, rejected, given, update_charts, poll_all,
}
use go_fire.Web.Scripts.Charts.Laws.{
  columns_of, chart_of, shows-given, IsWhole, latest, AcceptsFree, poll_all-IsShowing,
}

abbrev pub entry : Text → StatusMap → Option ℕ
entry s [] = none
entry s ((t, n) ∷ m) = if same t s then some n else entry s m

-- The bar over a label.
abbrev pub bar_of : Text → List Text → List ℕ → Option ℕ
bar_of s (t ∷ labels) (n ∷ values) = if same t s then some n else bar_of s labels values
bar_of s _ _ = none

abbrev pub bar : Text → Option Chart → Option ℕ
bar s none = none
bar s (some c) = bar_of s c.content.labels c.content.values

bar_of-columns_of :
    (s : Text) (m : StatusMap) → bar_of s (columns_of m).labels (columns_of m).values ≡ entry s m
bar_of-columns_of s [] = refl
bar_of-columns_of s ((t, n) ∷ m) = ap (λ o. if same t s then some n else o) (bar_of-columns_of s m)

-- What the script makes of the body: a page, or the message of an error, is no JSON.
abbrev pub answer_of_body : (Counts → StatusMap) → List Body → Answer
answer_of_body wire (counts m m' ∷ []) = given (some (wire m')) (some (wire m))
answer_of_body wire _ = rejected

abbrev pub answer_of : (Counts → StatusMap) → Writer → Answer
answer_of wire w = answer_of_body wire w.body

abbrev pub enqueued_statuses : Tables → List JobStatus
enqueued_statuses t = map (λ (x : Enqueued.Row). x.status) t.enqueued.rows

abbrev pub cron_statuses : Tables → List JobStatus
cron_statuses t = map (λ (x : CronJobs.Row). x.status) t.cron.rows

-- A request of the script that the server lets pass.
abbrev pub IsPoll : Server → Request → Type 0
IsPoll server r =
    (r.path ≡ codes "/charts")
    × (same (value (codes "loadCharts") r.query) [] ≡ false)
    × ((server.use_auth && not (is_authenticated server r)) ≡ false)

charts-counts :
    (f : Faults) (r : Request) (t : Tables) {m m' : Counts}
    → same (value (codes "loadCharts") r.query) [] ≡ false
    → count_all_jobs_grouped_by_status f.count (enqueued_statuses t) ≡ ok m
    → count_all_jobs_grouped_by_status f.count_cron (cron_statuses t) ≡ ok m'
    → (charts f r t).1.body ≡ counts m m' ∷ []
unfolding charts count_all write write_header
charts-counts f r t load e e' = rw (load, e, e') refl

serve-charts :
    (server : Server) (files : Request → Writer) (f : Faults) (r : Request) (t : Tables)
    → IsPoll server r
    → serve server files f r t ≡ charts f r t
unfolding serve handle route auth_middleware
serve-charts server files f r t (path, load, passes) = rw (path, passes) refl

-- `count` is the number of the rows with the status; the map has it for each of the six.
counted :
    (ss : List JobStatus)
    → (m : Counts) × (count_all_jobs_grouped_by_status none ss ≡ ok m)
      × ((s : JobStatus) → any (is s) all_statuses ≡ true → lookup s m ≡ some (count s ss))
counted ss = let (m, e, look) = lookup-count_all ss in (m, e, λ s known. look s ∙ rw known refl)

bar-shown :
    (s : Text) (canvas label : String) (m : StatusMap) (c : Option Chart)
    → c ≡ some (chart_of canvas label m)
    → bar s c ≡ entry s m
bar-shown s canvas label m c e = rw e (bar_of-columns_of s m)

-- The counts reach the charts. Where JSON keeps the counts of the six statuses under their names, where
-- Chart.js accepts a canvas that has no chart, and after any earlier answers, rejected or with both
-- objects: once the script has the answer to a request that the server lets pass, and the database has
-- not failed, the bar over each of the six statuses is the number of rows with that status, of enqueued
-- jobs in the one chart and of cron jobs in the other.
pub charts-show_tables :
    (server : Server) (files : Request → Writer) (f : Faults) (r : Request) (t : Tables)
    (wire : Counts → StatusMap) (accepts : List String → String → Bool) (answers : List Answer)
    (s : JobStatus)
    → IsPoll server r
    → f.count ≡ none
    → f.count_cron ≡ none
    → ((m : Counts) (s : JobStatus)
        → any (is s) all_statuses ≡ true
        → entry (codes (to_string s)) (wire m) ≡ lookup s m)
    → AcceptsFree accepts
    → All IsWhole answers
    → any (is s) all_statuses ≡ true
    → let p =
        update_charts accepts
          (answer_of wire (serve server files f r t).1)
          (poll_all accepts answers blank) in
      (bar (codes (to_string s)) p.enqueued_chart ≡ some (count s (enqueued_statuses t)))
      × (bar (codes (to_string s)) p.cron_chart ≡ some (count s (cron_statuses t)))
charts-show_tables server files f r t wire accepts answers s polls works works' keeps free whole
      known =
    let (m, e, look) = counted (enqueued_statuses t) in
    let (m', e', look') = counted (cron_statuses t) in
    let before = poll_all-IsShowing accepts answers none blank free whole (refl, refl, refl) in
    let sent = charts-counts f r t polls.1 (rw works e) (rw works' e') in
    let (cron, enqueued, both) =
      shows-given accepts (latest none answers) (wire m') (wire m) (poll_all accepts answers blank)
        free before in
    rw (serve-charts server files f r t polls, sent)
      (
        bar-shown (codes (to_string s)) "enqueuedChart" "Enqueued Jobs" (wire m) _ enqueued
            ∙ keeps m s known
            ∙ look s known,
        bar-shown (codes (to_string s)) "cronChart" "Cron Jobs" (wire m') _ cron
            ∙ keeps m' s known
            ∙ look' s known,
      )
