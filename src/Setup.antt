-- ===== src/Setup.antt =====
-- The dashboard's first user (createDashboardAdminIfConfigured of jobmanager/run.go).
pub mod Laws
pub mod Migrations
pub mod Registration
pub mod Start
use go_fire.Base.{
  ℕ, Bool, ◌||◌, List, [], ◌∷◌, Option, none, some, Error, Result, ok, err, if◌then◌else◌,
}
use go_fire.Text.{Text, same}
use go_fire.Store.Users.{Users, User, Bcrypt, create, find_by_username}

-- The failures of the database at FindByUsername, and at the DELETE and the INSERT of Create.
pub record Faults : Type 0 where
  pub find : Option Error
  pub delete : Option Error
  pub insert : Option Error

abbrev pub drop_id : Users × Result ℕ → Users × Result (Unit {0})
drop_id (s, ok id) = (s, ok tt)
drop_id (s, err e) = (s, err e)

-- For what FindByUsername has returned.
abbrev pub create_if_missing :
    Bcrypt → ℕ → Faults → Text → Text → Users → Result (Option User) → Users × Result (Unit {0})
create_if_missing bcrypt salt f username password s (err e) = (s, err e)
create_if_missing bcrypt salt f username password s (ok (some user)) = (s, ok tt)
create_if_missing bcrypt salt f username password s (ok none) =
    drop_id (create bcrypt salt f.delete f.insert username password s)

unfoldable pub create_dashboard_admin_if_configured :
    Bcrypt → ℕ → Faults → Text → Text → Users → Users × Result (Unit {0})
unfolding find_by_username create
create_dashboard_admin_if_configured bcrypt salt f username password s =
    if same username [] || same password []
    then (s, ok tt)
    else create_if_missing bcrypt salt f username password s (find_by_username f.find username s)
