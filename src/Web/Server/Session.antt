-- ===== src/Web/Server/Session.antt =====
-- Logging in.
use go_fire.Base.{ℕ, ◌≡◌, ◌≢◌, refl, ap, ◌∙◌, true, [], ◌∷◌, none, some, ok, All}
use go_fire.Text.{Text, codes}
use go_fire.Store.Users.{Users, User, find, find_by_username}
use go_fire.Setup.{create_dashboard_admin_if_configured}
use go_fire.Setup
use go_fire.Setup.Laws.{find-admin}
use go_fire.Web.Uri.Laws.{IsScalar}
use go_fire.Web.Auth.{generate_auth_token}
use go_fire.Web.Auth.Token.{valid-generate_auth_token}
use go_fire.Web.Http.{
  Request, post, form_value, cookie, seconds, Writer, set_cookie, redirect, resolve,
}
use go_fire.Web.Server.{Server, Faults, is_authenticated, login_response, answer, granted}

-- The response to a login that is accepted.
abbrev pub logged_in : Text → Writer
logged_in token = record {
  cookies =
      record { name = codes "auth"; value = token; max_age = seconds 3600; http_only = true } ∷ [];
  location = some (codes "/charts");
  status = some 303;
  body = [];
}

login_response-granted :
    (server : Server) (f : Faults) (r : Request) (users : Users) (user : User)
    → r.method ≡ post
    → find server.bcrypt f.find
        (form_value r (codes "username"))
        (form_value r (codes "password"))
        users
      ≡ ok (some user)
    → login_response server f r users
      ≡ logged_in
          (generate_auth_token server.hmac (form_value r (codes "username")) server.secret_key)
unfolding login_response answer granted set_cookie redirect resolve
login_response-granted server f r users user posted found = rw (posted, found) refl

is_authenticated-token :
    (server : Server) (u : Text) (r : Request)
    → All IsScalar u
    → cookie (codes "auth") r.cookies ≡ some (generate_auth_token server.hmac u server.secret_key)
    → is_authenticated server r ≡ true
unfolding is_authenticated
is_authenticated-token server u r h sent =
    rw sent ((valid-generate_auth_token server.hmac u server.secret_key server.secret_key h).1 refl)

-- The user that is configured can log in: where nobody had the name and it was set up without an
-- error, posting the name and the password to the login, while the database works, sets a cookie and
-- leads to the charts; and every request that brings the cookie is authenticated.
pub admin-authenticates :
    (server : Server) (salt : ℕ) (g : Setup.Faults) (f : Faults) (u p : Text) (users : Users)
    (r r' : Request)
    → u ≢ []
    → p ≢ []
    → All IsScalar u
    → find_by_username g.find u users ≡ ok none
    → (create_dashboard_admin_if_configured server.bcrypt salt g u p users).1 ≡ ok tt
    → f.find ≡ none
    → r.method ≡ post
    → form_value r (codes "username") ≡ u
    → form_value r (codes "password") ≡ p
    → cookie (codes "auth") r'.cookies ≡ some (generate_auth_token server.hmac u server.secret_key)
    → (login_response server f r
          (create_dashboard_admin_if_configured server.bcrypt salt g u p users).0
        ≡ logged_in (generate_auth_token server.hmac u server.secret_key))
      × (is_authenticated server r' ≡ true)
admin-authenticates server salt g f u p users r r' hu hp scalar missing done works posted hn hpw
      sent =
    let (id, found) = find-admin server.bcrypt salt g u p users hu hp missing done in
    let s = (create_dashboard_admin_if_configured server.bcrypt salt g u p users).0 in
    let found' : find server.bcrypt f.find (form_value r (codes "username"))
          (form_value r (codes "password")) s
        ≡ ok (some (record { id = id; username = u; password = [] })) =
      rw (works, hn, hpw) found in
    (
      login_response-granted server f r s _ posted found'
          ∙ ap (λ x. logged_in (generate_auth_token server.hmac x server.secret_key)) hn,
      is_authenticated-token server u r' scalar sent,
    )
