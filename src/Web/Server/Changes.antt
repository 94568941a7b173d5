-- ===== src/Web/Server/Changes.antt =====
-- Activating and deactivating a cron job from the dashboard, and what the user is told.
use go_fire.Base.{
  ℕ, ◌≡◌, refl, ◌⊎◌, inl, inr, Bool, true, false, not, ◌||◌, [], Option, none, some, Error, arith,
  Bool-cases, if◌then◌else◌,
}
use go_fire.Text.{Text, codes, same}
use go_fire.Cron.Int.{atoi}
use go_fire.Store.CronJobs.{activate, deactivate, execute_change_activate_query, update_row}
use go_fire.Store.CronJobs
use go_fire.Web.Http.{Request, Method, get, post, other, form_value, Writer, fresh, http_error}
use go_fire.Web.Server.{
  Tables, Faults, change_cron_job_status, change_posted, change_to, is_change, change_status,
}

Method-cases : (m : Method) → (m ≡ get) ⊎ (m ≡ post) ⊎ (m ≡ other)
Method-cases get = inl refl
Method-cases post = inr (inl refl)
Method-cases other = inr (inr refl)

-- A failure of the database leaves the tables `t`, and the response `w` is sent all the same.
record IsBlind (t : Tables) (x y : Tables × Writer) : Type 0 where
  unchanged : x.0 ≡ t
  answered : x.1 ≡ y.1

nothing : (t : Tables) (w : Writer) → IsBlind t (t, w) (t, w)
nothing t w = record { unchanged = refl; answered = refl }

if-IsBlind :
    (b : Bool) (t : Tables) {x y x' y' : Tables × Writer}
    → IsBlind t x x'
    → IsBlind t y y'
    → IsBlind t (if b then x else y) (if b then x' else y')
if-IsBlind true t h k = h
if-IsBlind false t h k = k

change_status-failed :
    (e : Error) (action : Text) (id : ℕ) (s : CronJobs.Store)
    → change_status (some e) action id s ≡ s
unfolding activate deactivate execute_change_activate_query update_row
change_status-failed e action id s = elim (Bool-cases (same action (codes "activate"))) [
  | inl on ↦ rw on refl
  | inr off ↦ rw off (ground arith)
]

change_to-IsBlind :
    (f f' : Faults) (r : Request) (action : Text) (id : Option ℕ) (t : Tables) (e : Error)
    → f.change ≡ some e
    → IsBlind t (change_to f r action id t) (change_to f' r action id t)
change_to-IsBlind f f' r action none t e fails = nothing t (http_error "Invalid ID" 400 fresh)
change_to-IsBlind f f' r action (some id) t e fails = record {
  unchanged = rw (fails, change_status-failed e action id t.cron) refl;
  answered = refl;
}

change_posted-IsBlind :
    (f f' : Faults) (r : Request) (t : Tables) (e : Error)
    → f.change ≡ some e
    → IsBlind t (change_posted f r t) (change_posted f' r t)
change_posted-IsBlind f f' r t e fails =
    let action = form_value r (codes "action") in
    let id = form_value r (codes "id") in
    if-IsBlind r.bad_form t (nothing t (http_error "Bad Request" 400 fresh)) (
      if-IsBlind (same id [] || not (is_change action)) t
        (nothing t (http_error "Invalid Parameters" 400 fresh))
        (change_to-IsBlind f f' r action (atoi id) t e fails))

-- A failure of the database cannot be seen: where the statement of Activate or DeActivate fails, the
-- tables stay as they are, and the response is the one that is sent where it does not fail, with its
-- message of success.
pub change_cron_job_status-blind :
    (f f' : Faults) (r : Request) (t : Tables) (e : Error)
    → f.change ≡ some e
    → f'.change ≡ none
    → ((change_cron_job_status f r t).0 ≡ t)
      × ((change_cron_job_status f r t).1 ≡ (change_cron_job_status f' r t).1)
unfolding change_cron_job_status
change_cron_job_status-blind f f' r t e fails works = elim (Method-cases r.method) [
  | inl m ↦ rw m (refl, refl)
  | inr (inl m) ↦
      let blind = change_posted-IsBlind f f' r t e fails in rw m (blind.unchanged, blind.answered)
  | inr (inr m) ↦ rw m (refl, refl)
]
