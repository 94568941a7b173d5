-- ===== src/Setup/Laws.antt =====
-- The user that is set up can log in.
use go_fire.Base.{ℕ, ◌≡◌, ◌≢◌, refl, [], ◌∷◌, none, some, Result, ok, err}
use go_fire.Text.{Text}
use go_fire.Store.Users.{Users, Bcrypt, create, find, find_by_username}
use go_fire.Store.Users.Laws.{create-found}
use go_fire.Setup.{Faults, drop_id, create_dashboard_admin_if_configured}

drop_id-ok :
    (x : Users × Result ℕ)
    → (drop_id x).1 ≡ ok tt
    → (id : ℕ) × (x.1 ≡ ok id) × ((drop_id x).0 ≡ x.0)
drop_id-ok (s, ok id) h = (id, refl, refl)
drop_id-ok (s, err e) h = absurd cc

-- Where the user is missing and no error is returned, Create has returned an id.
created :
    (b : Bcrypt) (salt : ℕ) (f : Faults) (u p : Text) (s : Users)
    → u ≢ []
    → p ≢ []
    → find_by_username f.find u s ≡ ok none
    → (create_dashboard_admin_if_configured b salt f u p s).1 ≡ ok tt
    → (id : ℕ) × ((create b salt f.delete f.insert u p s).1 ≡ ok id)
      × ((create_dashboard_admin_if_configured b salt f u p s).0
          ≡ (create b salt f.delete f.insert u p s).0)
unfolding create_dashboard_admin_if_configured
created b salt f [] p s hu hp missing done = absurd (hu refl)
created b salt f (c ∷ u) [] s hu hp missing done = absurd (hp refl)
created b salt f (c ∷ u) (d ∷ p) s hu hp missing done = rw missing (
    drop_id-ok (create b salt f.delete f.insert (c ∷ u) (d ∷ p) s)
      (rw (create_dashboard_admin_if_configured, missing) at done))

-- Where a user and a password are configured, nobody has the name and no error is returned, Find
-- returns the user with the name for the password from then on.
pub find-admin :
    (b : Bcrypt) (salt : ℕ) (f : Faults) (u p : Text) (s : Users)
    → u ≢ []
    → p ≢ []
    → find_by_username f.find u s ≡ ok none
    → (create_dashboard_admin_if_configured b salt f u p s).1 ≡ ok tt
    → (id : ℕ) × (find b none u p (create_dashboard_admin_if_configured b salt f u p s).0
        ≡ ok (some (record { id = id; username = u; password = [] })))
find-admin b salt f u p s hu hp missing done =
    let (id, made, same') = created b salt f u p s hu hp missing done in
    (id, rw same' (create-found b salt f.delete f.insert u p s id made).0)
