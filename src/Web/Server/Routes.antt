-- ===== src/Web/Server/Routes.antt =====
-- Serve (web/route_handler.go): which handler answers a path, and which ask for a login. The files
-- under /static/ are a parameter: what the file server answers.
use go_fire.Base.{if◌then◌else◌}
use go_fire.Text.{Text, codes, same, starts_with}
use go_fire.Web.Http.{Request, Writer}
use go_fire.Web.Server.{
  Server, Handler, auth_middleware, change_cron_job_status, index, login, logout,
}
use go_fire.Web.Server.Lists.{enqueued, cron_jobs, charts}

pub data Route : Type 0 where
  to_enqueued to_cron_jobs to_change to_charts to_index to_login to_logout to_static : Route

-- ServeMux: a pattern that ends in `/` takes the paths below it, and the longest pattern wins.
unfoldable pub route : Text → Route
route path =
    if same path (codes "/enqueued")
    then to_enqueued
    else if same path (codes "/cron-jobs")
    then to_cron_jobs
    else if same path (codes "/change-cron-job-status")
    then to_change
    else if same path (codes "/charts")
    then to_charts
    else if same path (codes "/login")
    then to_login
    else if same path (codes "/Logout")
    then to_logout
    else if starts_with (codes "/static/") path
    then to_static
    else to_index

unfoldable pub handle : Server → (Request → Writer) → Route → Handler
unfolding auth_middleware enqueued cron_jobs change_cron_job_status charts index login logout
handle server files to_enqueued = auth_middleware server enqueued
handle server files to_cron_jobs = auth_middleware server cron_jobs
handle server files to_change = auth_middleware server change_cron_job_status
handle server files to_charts = auth_middleware server charts
handle server files to_index = auth_middleware server (index server)
handle server files to_login = login server
handle server files to_logout = logout
handle server files to_static = λ f r t. (t, files r)

unfoldable pub serve : Server → (Request → Writer) → Handler
unfolding handle route
serve server files f r t = handle server files (route r.path) f r t
