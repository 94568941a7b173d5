-- ===== src/Web/Server/Guard.antt =====
-- What a request without a login gets, and what one with a login gets for an unknown path.
use go_fire.Base.{
  ◌≡◌, refl, ap, ◌∙◌, ◌⊎◌, inl, inr, true, false, [], ◌∷◌, ◌++◌, some, arith, append_assoc,
}
use go_fire.Text.{Text, codes, contains_char}
use go_fire.Web.Http.{Request, Writer, fresh, redirect, resolve, directory}
use go_fire.Web.Server.{
  Server, Tables, Faults, Handler, is_authenticated, auth_middleware, login, logout, index,
  change_cron_job_status,
}
use go_fire.Web.Server.Lists.{enqueued, cron_jobs, charts}
use go_fire.Web.Server.Routes.{
  Route, to_enqueued, to_cron_jobs, to_change, to_charts, to_index, to_login, to_logout, to_static,
  route, handle, serve,
}

-- The paths that are served without a login.
abbrev pub IsOpen : Route → Type 0
IsOpen to_login = Unit
IsOpen to_logout = Unit
IsOpen to_static = Unit
IsOpen _ = ⊥

-- A redirection to the login and nothing else.
abbrev pub sent_to_login : Writer
sent_to_login = record {
  cookies = [];
  location = some (codes "/login");
  status = some 303;
  body = [];
}

auth_middleware-rejects :
    (server : Server) (next : Handler) (f : Faults) (r : Request) (t : Tables)
    → server.use_auth ≡ true
    → is_authenticated server r ≡ false
    → auth_middleware server next f r t ≡ (t, sent_to_login)
unfolding auth_middleware redirect resolve
auth_middleware-rejects server next f r t auth out = rw (auth, out) refl

guarded :
    (server : Server) (next : Handler) (f : Faults) (r : Request) (t : Tables)
    → server.use_auth ≡ true
    → is_authenticated server r ≡ false
    → ((auth_middleware server next f r t).0 ≡ t)
      × (⊥ ⊎ ((auth_middleware server next f r t).1 ≡ sent_to_login))
guarded server next f r t auth out =
    let e = auth_middleware-rejects server next f r t auth out in
    (ap (λ x. x.0) e, inr (ap (λ x. x.1) e))

handle-guarded :
    (server : Server) (files : Request → Writer) (f : Faults) (r : Request) (t : Tables)
    → server.use_auth ≡ true
    → is_authenticated server r ≡ false
    → (p : Route)
    → ((handle server files p f r t).0 ≡ t)
      × (IsOpen p ⊎ ((handle server files p f r t).1 ≡ sent_to_login))
unfolding handle login logout
handle-guarded server files f r t auth out to_login = (refl, inl tt)
handle-guarded server files f r t auth out to_logout = (refl, inl tt)
handle-guarded server files f r t auth out to_static = (refl, inl tt)
handle-guarded server files f r t auth out to_enqueued = guarded server enqueued f r t auth out
handle-guarded server files f r t auth out to_cron_jobs = guarded server cron_jobs f r t auth out
handle-guarded server files f r t auth out to_change =
    guarded server change_cron_job_status f r t auth out
handle-guarded server files f r t auth out to_charts = guarded server charts f r t auth out
handle-guarded server files f r t auth out to_index = guarded server (index server) f r t auth out

-- Where the dashboard asks for a login, a request that does not carry a valid token changes no table,
-- and unless it is for the login, the logout or a static file, all that it gets is a redirection to
-- the login.
pub serve-guarded :
    (server : Server) (files : Request → Writer) (f : Faults) (r : Request) (t : Tables)
    → server.use_auth ≡ true
    → is_authenticated server r ≡ false
    → ((serve server files f r t).0 ≡ t)
      × (IsOpen (route r.path) ⊎ ((serve server files f r t).1 ≡ sent_to_login))
unfolding serve
serve-guarded server files f r t auth out =
    handle-guarded server files f r t auth out (route r.path)

directory-plain : (s : Text) → contains_char b'/' s ≡ false → directory s ≡ []
unfolding directory
directory-plain [] h = refl
directory-plain (c ∷ s) h = ground (arith, directory-plain s)

contains_char-end : (s name : Text) → contains_char b'/' (s ++ b'/' ∷ name) ≡ true
contains_char-end [] name = refl
contains_char-end (c ∷ s) name = ground (arith, contains_char-end s name)

directory-end :
    (s name : Text)
    → contains_char b'/' name ≡ false
    → directory (s ++ b'/' ∷ name) ≡ s ++ b'/' ∷ []
unfolding directory
directory-end [] name h = rw (directory-plain name h) refl
directory-end (c ∷ s) name h = rw (directory-end s name h, contains_char-end s name) (ground arith)

auth_middleware-passes :
    (server : Server) (next : Handler) (f : Faults) (r : Request) (t : Tables)
    → is_authenticated server r ≡ true
    → auth_middleware server next f r t ≡ next f r t
unfolding auth_middleware
auth_middleware-passes server next f r t login' = ground (arith, login')

index-redirects :
    (server : Server) (files : Request → Writer) (f : Faults) (r : Request) (t : Tables)
    → is_authenticated server r ≡ true
    → handle server files to_index f r t ≡ (t, redirect r (codes "charts") fresh)
unfolding handle index
index-redirects server files f r t login' =
    auth_middleware-passes server (index server) f r t login' ∙ rw login' refl

-- A request with a login for a path `…/charts` that no handler is registered for is redirected to the
-- same path, and so again without end.
pub index-loops :
    (server : Server) (files : Request → Writer) (f : Faults) (r : Request) (t : Tables) (s : Text)
    → is_authenticated server r ≡ true
    → r.path ≡ s ++ codes "/charts"
    → route r.path ≡ to_index
    → ((serve server files f r t).1.status ≡ some 303)
      × ((serve server files f r t).1.location ≡ some r.path)
unfolding serve redirect resolve
index-loops server files f r t s login' e unknown =
    let back : directory r.path ++ codes "charts" ≡ r.path =
      rw e (rw (directory-end s (codes "charts") refl, append_assoc) refl) in
    rw (unknown, index-redirects server files f r t login') (refl, ap some back)
