-- ===== src/Web/Http.antt =====
-- Requests and responses, as far as the dashboard uses net/http (web/route_handler.go,
-- web/shared.go, web/template_renderer.go). A header that is set after the status has been written is
-- lost, and only the first status counts. The link that http.Redirect writes into the body is left
-- out. Paths are clean: ServeMux redirects any other before it calls a handler.
use go_fire.Base.{
  ℕ, Bool, ◌&&◌, ◌||◌, List, [], ◌∷◌, ◌++◌, Option, none, some, String, if◌then◌else◌, ltb, ◌==◌,
}
use go_fire.Text.{Text, codes, same, contains_char}
use go_fire.Status.{JobStatus}
use go_fire.Store.Page.{PaginationResult}
use go_fire.Store.Counts.{Counts}
use go_fire.Store.Enqueued.{EnqueuedJob}
use go_fire.Store.CronJobs.{CronJob}
use go_fire.Cron.Int.{atoi}

abbrev pub Values : Type 0
Values = List (Text × Text)

pub data Method : Type 0 where
  get post other : Method

-- `form` has the parameters of the body, which only some methods have; `bad_form` says that ParseForm
-- fails.
pub record Request : Type 0 where
  pub method : Method
  pub path : Text
  pub query : Values
  pub form : Values
  pub bad_form : Bool
  pub cookies : Values

pub data MaxAge : Type 0 where
  seconds : ℕ → MaxAge
  expired : MaxAge

-- The path of every cookie is "/".
pub record Cookie : Type 0 where
  pub name : Text
  pub value : Text
  pub max_age : MaxAge
  pub http_only : Bool

-- A template and its data.
pub data Page : Type 0 where
  enqueued_page : PaginationResult EnqueuedJob → JobStatus → Option Counts → Page
  cron_page : PaginationResult CronJob → JobStatus → Option Counts → Page
  charts_page : Page
  login_page : Page

pub data Body : Type 0 where
  page : Page → Body
  message : String → Body
  counts : Counts → Counts → Body

-- http.ResponseWriter: the headers that are sent, the status once it is written, and the body.
pub record Writer : Type 0 where
  pub cookies : List Cookie
  pub location : Option Text
  pub status : Option ℕ
  pub body : List Body

abbrev pub fresh : Writer
fresh = record { cookies = []; location = none; status = none; body = [] }

-- A change of the headers, for the status as it is.
abbrev pub unless_written : Option ℕ → (Writer → Writer) → Writer → Writer
unless_written none f w = f w
unless_written (some status) f w = w

unfoldable pub set_cookie : Cookie → Writer → Writer
set_cookie c w = unless_written w.status (λ w. record w { cookies = w.cookies ++ c ∷ [] }) w

unfoldable pub write_header : ℕ → Writer → Writer
write_header status w = unless_written w.status (λ w. record w { status = some status }) w

unfoldable pub write : Body → Writer → Writer
unfolding write_header
write b w = let w' = write_header 200 w in record w' { body = w'.body ++ b ∷ [] }

unfoldable pub http_error : String → ℕ → Writer → Writer
unfolding write write_header
http_error text status w = write (message text) (write_header status w)

-- A path up to its last `/`.
unfoldable pub directory : Text → Text
directory [] = []
directory (c ∷ s) =
    let rest = directory s in if c == b'/' || contains_char b'/' s then c ∷ rest else []

-- A location that does not begin with `/` is meant from the directory of the request.
unfoldable pub resolve : Text → Text → Text
unfolding directory
resolve path [] = directory path
resolve path (c ∷ url) = if c == b'/' then c ∷ url else directory path ++ c ∷ url

-- `http.Redirect(w, r, url, http.StatusSeeOther)`.
unfoldable pub redirect : Request → Text → Writer → Writer
unfolding resolve
redirect r url w =
    unless_written w.status
      (λ w. record w { location = some (resolve r.path url); status = some 303 }) w

-- `Get` of url.Values: the first value, or the empty text.
unfoldable pub value : Text → Values → Text
value name [] = []
value name ((n, v) ∷ vs) = if same n name then v else value name vs

-- `r.FormValue(name)`: the body comes before the address.
unfoldable pub form_value : Request → Text → Text
unfolding value
form_value r name = value name (r.form ++ r.query)

-- `r.Cookie(name)`; none where it returns an error.
unfoldable pub cookie : Text → Values → Option Text
cookie name [] = none
cookie name ((n, v) ∷ vs) = if same n name then some v else cookie name vs

-- A number that ParseInt returns, as the bit pattern of an int64.
abbrev pub page_or_one : Option ℕ → ℕ
page_or_one none = 1
page_or_one (some n) = if ltb 0 n && ltb n 9223372036854775808 then n else 1

unfoldable pub get_page_number : Request → ℕ
unfolding value atoi
get_page_number r = page_or_one (atoi (value (codes "page") r.query))
