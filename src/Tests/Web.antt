-- ===== src/Tests/Web.antt =====
-- Runs of the dashboard's server, and the theorems about it at concrete inputs.
use go_fire.Base.{
  ℕ, ◌+◌, ◌%◌, ◌≤◌, ◌<◌, ◌≡◌, ◌⊎◌, ◌↔◌, inl, refl, Bool, true, false, [], ◌∷◌, none, some, Result,
  ok, err, arith, if◌then◌else◌, ltb, length, Bool-cases, inr,
}
use go_fire.Text.{Text, codes, same, is_space}
use go_fire.Text.Same.{same_refl}
use go_fire.Text.Chars.{trim_space}
use go_fire.Status.{queued}
use go_fire.Store.Enqueued
use go_fire.Store.Users.{Users, Bcrypt, find_by_username, create}
use go_fire.Setup.{create_dashboard_admin_if_configured}
use go_fire.Setup
use go_fire.Web.Base64.{encode, decode}
use go_fire.Web.Auth.{Hmac, bytes, generate_auth_token, is_valid_auth_token}
use go_fire.Web.Auth.Token.{valid-generate_auth_token}
use go_fire.Web.Scripts.{go_to_page}
use go_fire.Web.Scripts.Pager.{load_page}
use go_fire.Web.Http.{Request, Values, get, post, Writer, form_value, cookie, get_page_number}
use go_fire.Web.Server.{Server, Tables, Faults, is_authenticated, login_response}
use go_fire.Web.Server.Lists.{enqueued}
use go_fire.Web.Server.Routes.{route, serve}
use go_fire.Web.Server.Guard.{serve-guarded, sent_to_login, IsOpen}
use go_fire.Web.Server.Session.{logged_in, admin-authenticates}
use go_fire.Web.Server.Actions.{enqueued-IsHandled, IsHandled}
use go_fire.Web.Server.Paging.{get_page_number-bounds, get_page_number-load_page}

base64 :
    (encode (codes "any carnal pleas") ≡ codes "YW55IGNhcm5hbCBwbGVhcw==")
    × (decode (codes "YW55IGNhcm5h\nbCBwbGVhcw==") ≡ some (codes "any carnal pleas"))
    × (decode (codes "YW=5") ≡ none)
unfolding encode decode
base64 = (refl, refl, refl)

-- A signature that is only as good as the lengths of the key and of the message.
abbrev lengths : Hmac
lengths = record {
  sum = λ key message. ((length key + length message) % 256) ∷ [];
  sum-bytes = λ key message. (omega arith, tt);
}

-- A hash that is the salt in front of the password, for passwords of at most 72 characters.
abbrev pub salted : ℕ → Text → Result Text
salted salt password =
    if ltb 72 (length password)
    then err "bcrypt: password length exceeds 72 bytes"
    else ok (salt ∷ password)

abbrev pub matches : Text → Text → Bool
matches [] password = false
matches (salt ∷ hash) password = same hash password

pub salted-matches :
    (salt : ℕ) (password hash : Text)
    → salted salt password ≡ ok hash
    → matches hash password ≡ true
salted-matches salt password hash h = elim (Bool-cases (ltb 72 (length password))) [
  | inl long ↦ absurd (let h' = rw long at h in cc)
  | inr short ↦
      let h' : ok (salt ∷ password) ≡ ok hash = rw short at h in
      let e : salt ∷ password ≡ hash = cc in rw (← e) (same_refl password)
]

abbrev pub bcrypt : Bcrypt
bcrypt = record { generate = salted; compare = matches; compare-generate = salted-matches }

abbrev pub server : Server
server = record { hmac = lengths; bcrypt = bcrypt; secret_key = codes "secret"; use_auth = true }

abbrev pub no_faults : Faults
no_faults = record {
  now = 100;
  tie = λ r. 0;
  remove = none;
  fetch = none;
  count = none;
  count_cron = none;
  change = none;
  find = none;
}

abbrev job : Enqueued.Row
job = record {
  id = 4;
  name = "mail";
  payload = "[]";
  status = queued;
  attempts = 0;
  max_attempts = 3;
  scheduled_at = 50;
  executed_at = none;
  last_error = none;
  locked_by = none;
  locked_at = none;
  created_at = 40;
}

abbrev pub tables : Tables
tables = record {
  enqueued = record { rows = job ∷ []; next_id = 5 };
  cron = record { rows = []; next_id = 1 };
  users = record { rows = []; next_id = 1 };
}

-- A request without a form.
abbrev pub visit : Text → Values → Values → Request
visit path query cookies = record {
  method = get;
  path = path;
  query = query;
  form = [];
  bad_form = false;
  cookies = cookies;
}

abbrev submit : Text → Values → Values → Request
submit path form cookies = record {
  method = post;
  path = path;
  query = [];
  form = form;
  bad_form = false;
  cookies = cookies;
}

abbrev pub nothing_found : Request → Writer
nothing_found r = record { cookies = []; location = none; status = some 404; body = [] }

abbrev pub token : Text
unfolding generate_auth_token
token = generate_auth_token lengths (codes "ad|min") (codes "secret")

tokens :
    (is_valid_auth_token lengths token (codes "secret") ≡ true)
    × (is_valid_auth_token lengths token (codes "secrets") ≡ false)
    × (is_valid_auth_token lengths (codes "YQ==") (codes "secret") ≡ false)
unfolding is_valid_auth_token generate_auth_token decode
tokens = (refl, refl, refl)

valid-generate_auth_token_example :
    (is_valid_auth_token lengths
        (generate_auth_token lengths (codes "ad|min") (codes "secret"))
        (codes "another")
      ≡ true)
    ↔ (lengths.sum (bytes (codes "secret")) (bytes (codes "ad|min"))
        ≡ lengths.sum (bytes (codes "another")) (bytes (codes "ad|min")))
valid-generate_auth_token_example =
    valid-generate_auth_token lengths (codes "ad|min") (codes "secret") (codes "another")
      (ground arith)

abbrev removal : Request
removal =
    visit (codes "/enqueued") ((codes "action", codes "remove") ∷ (codes "id", codes "4") ∷ []) []

serve-guarded_example :
    ((serve server nothing_found no_faults removal tables).0 ≡ tables)
    × (IsOpen (route removal.path)
        ⊎ ((serve server nothing_found no_faults removal tables).1 ≡ sent_to_login))
unfolding is_authenticated
serve-guarded_example = serve-guarded server nothing_found no_faults removal tables refl refl

abbrev lost : Request
lost = visit (codes "/jobs/charts") [] ((codes "auth", token) ∷ [])

-- A GET removes a job, and an action that is unknown is announced as a removal.
removals :
    ((enqueued no_faults removal tables).0.enqueued.rows ≡ [])
    × ((enqueued no_faults
          (visit (codes "/enqueued") ((codes "action", codes "retry") ∷ []) [])
          tables).1.status
        ≡ some 303)
unfolding enqueued trim_space
removals = (refl, refl)

enqueued-IsHandled_example : IsHandled removal tables (enqueued no_faults removal tables)
enqueued-IsHandled_example = enqueued-IsHandled no_faults removal tables

abbrev activation : Request
activation =
    submit (codes "/change-cron-job-status")
      ((codes "action", codes "activate") ∷ (codes "id", codes "1") ∷ []) []

abbrev broken : Faults
broken = record no_faults { change = some "connection refused" }

abbrev pub setup_works : Setup.Faults
setup_works = record { find = none; delete = none; insert = none }

abbrev pub no_users : Users
no_users = record { rows = []; next_id = 1 }

abbrev credentials : Request
credentials =
    submit (codes "/login")
      ((codes "username", codes "ad|min") ∷ (codes "password", codes "pass") ∷ []) []

admin-authenticates_example :
    (login_response server no_faults credentials
        (create_dashboard_admin_if_configured bcrypt 9 setup_works
          (codes "ad|min")
          (codes "pass")
          no_users).0
      ≡ logged_in (generate_auth_token lengths (codes "ad|min") (codes "secret")))
    × (is_authenticated server lost ≡ true)
unfolding form_value find_by_username create_dashboard_admin_if_configured create
    generate_auth_token cookie
admin-authenticates_example =
    admin-authenticates server 9 setup_works no_faults (codes "ad|min") (codes "pass") no_users
      credentials lost (λ e. cc) (λ e. cc) (ground arith) refl refl refl refl refl refl refl

get_page_number-bounds_example :
    (1 ≤ get_page_number (visit (codes "/cron-jobs") ((codes "page", codes "-3") ∷ []) []))
    × (get_page_number (visit (codes "/cron-jobs") ((codes "page", codes "-3") ∷ []) [])
        < 9223372036854775808)
get_page_number-bounds_example =
    get_page_number-bounds (visit (codes "/cron-jobs") ((codes "page", codes "-3") ∷ []) [])

get_page_number-load_page_example :
    get_page_number (visit (codes "/cron-jobs") ((codes "page", codes "12") ∷ []) []) ≡ 12
unfolding load_page go_to_page is_space
get_page_number-load_page_example =
    get_page_number-load_page (visit (codes "/cron-jobs") ((codes "page", codes "12") ∷ []) [])
      (codes "next") ((codes "page", codes "11") ∷ []) 12 refl refl (omega arith)
