-- ===== src/Web/Server.antt =====
-- The handlers of the dashboard (web/route_handler.go, web/auth_middleware.go,
-- web/auth_cookie_validator.go). A handler is a function of the request and of the tables. The
-- handlers of the lists are in Lists.
pub mod Lists
pub mod Routes
pub mod Guard
pub mod Changes
pub mod Actions
pub mod Paging
pub mod Session
use go_fire.Base.{
  ℕ, Bool, true, false, not, ◌&&◌, ◌||◌, List, [], ◌∷◌, Option, none, some, String, Error, Result,
  ok, err, if◌then◌else◌,
}
use go_fire.Text.{Text, codes, same}
use go_fire.Store.Sql.{Time}
use go_fire.Store.Enqueued
use go_fire.Store.CronJobs.{activate, deactivate}
use go_fire.Store.CronJobs
use go_fire.Store.Users.{Users, Bcrypt, User, find}
use go_fire.Cron.Int.{atoi}
use go_fire.Web.Uri.{query_escape}
use go_fire.Web.Auth.{Hmac, generate_auth_token, is_valid_auth_token}
use go_fire.Web.Http.{
  Request, get, post, other, Cookie, MaxAge, seconds, expired, Writer, login_page, page, fresh,
  set_cookie, write, http_error, redirect, form_value, cookie,
}

-- HttpRouteHandler without its stores, and the packages that it calls.
pub record Server : Type 0 where
  pub hmac : Hmac
  pub bcrypt : Bcrypt
  pub secret_key : Text
  pub use_auth : Bool

pub record Tables : Type 0 where
  pub enqueued : Enqueued.Store
  pub cron : CronJobs.Store
  pub users : Users

-- The failures of the database at the calls that a handler makes, and the database's clock.
pub record Faults : Type 0 where
  pub now : Time
  pub tie : Enqueued.Row → ℕ
  pub remove : Option Error
  pub fetch : Option Error
  pub count : Option Error
  pub count_cron : Option Error
  pub change : Option Error
  pub find : Option Error

abbrev pub Handler : Type 0
Handler = Faults → Request → Tables → Tables × Writer

abbrev is_valid_cookie : Server → Option Text → Bool
is_valid_cookie server none = false
is_valid_cookie server (some token) = is_valid_auth_token server.hmac token server.secret_key

unfoldable pub is_authenticated : Server → Request → Bool
unfolding cookie
is_authenticated server r = is_valid_cookie server (cookie (codes "auth") r.cookies)

unfoldable pub auth_middleware : Server → Handler → Handler
unfolding is_authenticated redirect
auth_middleware server next f r t =
    if server.use_auth && not (is_authenticated server r)
    then (t, redirect r (codes "/login") fresh)
    else next f r t

-- A message for the script: the cookies `flash` and `warning` last five seconds.
unfoldable pub notice : Text → Text → Cookie
unfolding query_escape
notice name message = record {
  name = name;
  value = query_escape message;
  max_age = seconds 5;
  http_only = false;
}

abbrev change_message : Text → Text
change_message action =
    if same action (codes "activate")
    then codes "Job activated successfully!"
    else if same action (codes "deactivate")
    then codes "Job deactivated successfully!"
    else []

abbrev pub change_status : Option Error → Text → ℕ → CronJobs.Store → CronJobs.Store
change_status fault action id s =
    if same action (codes "activate")
    then (activate fault id s).0
    else if same action (codes "deactivate")
    then (deactivate fault id s).0
    else s

abbrev pub is_change : Text → Bool
is_change action = same action (codes "activate") || same action (codes "deactivate")

-- The end of the handler, for the id that ParseInt returned. What Activate and DeActivate return is
-- dropped.
abbrev pub change_to : Faults → Request → Text → Option ℕ → Tables → Tables × Writer
change_to f r action none t = (t, http_error "Invalid ID" 400 fresh)
change_to f r action (some id) t = (
  record t { cron = change_status f.change action id t.cron },
  redirect r (codes "/cron-jobs")
      (set_cookie (notice (codes "flash") (change_message action)) fresh),
)

abbrev change_posted : Handler
change_posted f r t =
    let action = form_value r (codes "action") in
    let id = form_value r (codes "id") in
    if r.bad_form
    then (t, http_error "Bad Request" 400 fresh)
    else if same id [] || not (is_change action)
    then (t, http_error "Invalid Parameters" 400 fresh)
    else change_to f r action (atoi id) t

unfoldable pub change_cron_job_status : Handler
unfolding activate deactivate atoi form_value notice http_error redirect set_cookie
change_cron_job_status f r t = elim r.method [
  | post ↦ change_posted f r t
  | get ↦ (t, http_error "Method Not Allowed" 405 fresh)
  | other ↦ (t, http_error "Method Not Allowed" 405 fresh)
]

unfoldable pub denied : Request → Writer → Writer
unfolding notice set_cookie redirect
denied r w =
    redirect r (codes "/login")
      (set_cookie (notice (codes "warning") (codes "invalid username or password")) w)

unfoldable pub granted : Server → Request → Writer → Writer
unfolding form_value generate_auth_token set_cookie redirect
granted server r w = redirect r (codes "/charts") (
    set_cookie
      (record {
        name = codes "auth";
        value = generate_auth_token server.hmac (form_value r (codes "username")) server.secret_key;
        max_age = seconds 3600;
        http_only = true;
      })
      w)

-- For what Find has returned. Where it was an error, the handler goes on, with no user.
unfoldable pub answer : Server → Request → Result (Option User) → Writer
unfolding denied granted
answer server r (err e) = denied r (denied r fresh)
answer server r (ok none) = denied r fresh
answer server r (ok (some user)) = granted server r fresh

-- The handler reads the users and changes nothing.
unfoldable pub login_response : Server → Faults → Request → Users → Writer
unfolding answer find form_value write http_error
login_response server f r users = elim r.method [
  | get ↦ write (page login_page) fresh
  | post ↦
      let username = form_value r (codes "username") in
      let password = form_value r (codes "password") in
      answer server r (find server.bcrypt f.find username password users)
  | other ↦ http_error "Method Not Allowed" 405 fresh
]

unfoldable pub login : Server → Handler
unfolding login_response
login server f r t = (t, login_response server f r t.users)

unfoldable pub logout : Handler
unfolding set_cookie redirect
logout f r t = (
  t,
  redirect r (codes "/login") (
      set_cookie (record { name = codes "auth"; value = []; max_age = expired; http_only = false })
        fresh),
)

unfoldable pub index : Server → Handler
unfolding is_authenticated redirect
index server f r t =
    if is_authenticated server r
    then (t, redirect r (codes "charts") fresh)
    else (t, redirect r (codes "login") fresh)
