-- ===== src/Web/Server/Actions.antt =====
-- Removing an enqueued job from the dashboard, and what the user is told.
use go_fire.Base.{
  ℕ, ◌≡◌, ◌≢◌, refl, ap, ◌⊎◌, inl, inr, List, [], ◌∷◌, Option, none, some, Error, Result-cases,
  String, ok, err, arith, Bool-cases, Option-cases, ◌==◌, All, length, select,
}
use go_fire.Text.{Text, codes, same}
use go_fire.Text.Same.{same-eq}
use go_fire.Text.Chars.{trim_space}
use go_fire.Cron.Int.{atoi}
use go_fire.Store.Sql.{affected, delete_where}
use go_fire.Store.Enqueued.{Row, Store, remove_by_id}
use go_fire.Web.Http.{
  Request, form_value, Writer, message, Body, fresh, write_header, http_error, set_cookie, redirect,
  write,
}
use go_fire.Web.Server.{Tables, Faults, notice}
use go_fire.Web.Server.Lists.{
  Outcome, handle_dashboard_action, announce_removal, removed_message, enqueued, list_enqueued,
  page_of, enqueued_after, remove_parsed,
}

-- The message is in the response.
abbrev pub Announces : Writer → Type 0
Announces w = (w.cookies ≡ notice (codes "flash") removed_message ∷ []) × (w.status ≡ some 303)

write-Announces : (b : Body) (w : Writer) → Announces w → Announces (write b w)
unfolding write write_header
write-Announces b w h = rw h.1 (h.0, refl)

http_error-Announces :
    (text : String) (code : ℕ) (w : Writer) → Announces w → Announces (http_error text code w)
unfolding http_error write_header
http_error-Announces text code w h =
    write-Announces (message text) (write_header code w) (rw h.1 (h.0, refl))

list_enqueued-Announces :
    (f : Faults) (r : Request) (s : Store) (w : Writer)
    → Announces w
    → Announces (list_enqueued f r s w)
list_enqueued-Announces f r s w h = elim (Result-cases (page_of f r s)) [
  | inl (jobs, e) ↦ rw e (write-Announces _ w h)
  | inr (e, bad) ↦ rw bad (http_error-Announces "Failed to fetch jobs" 500 w h)
]

announce_removal-fresh : (r : Request) → Announces (announce_removal r fresh)
unfolding announce_removal set_cookie redirect
announce_removal-fresh r = (refl, refl)

abbrev requested_action : Request → Text
requested_action r = trim_space (form_value r (codes "action"))

-- Nothing is announced and nothing done; or a removal is announced, and either the action is "remove"
-- and the table has no row with the id, or it is another and the table is as it was.
abbrev pub IsHandled : Request → Tables → Tables × Writer → Type 0
IsHandled r t (t', w) =
    ((t' ≡ t) × (w.cookies ≡ []))
    ⊎ (Announces w
        × (((id : ℕ) × (atoi (form_value r (codes "id")) ≡ some id)
              × (requested_action r ≡ codes "remove")
              × All (λ (x : Row). x.id ≢ id) t'.enqueued.rows)
            ⊎ ((requested_action r ≢ codes "remove") × (t' ≡ t))))

abbrev IsFree : ℕ → Store → Type 0
IsFree id s = All (λ (x : Row). x.id ≢ id) s.rows

delete_where-nothing :
    (id : ℕ) (rows : List Row)
    → length (select (λ (x : Row). x.id == id) rows) ≡ 0
    → delete_where (λ (x : Row). x.id == id) rows ≡ rows
unfolding delete_where
delete_where-nothing id [] h = refl
delete_where-nothing id (x ∷ rows) h = elim (Bool-cases (x.id == id)) [
  | inl hit ↦ absurd (ground (arith, hit, h))
  | inr miss ↦ rw miss (ap (λ xs. x ∷ xs) (delete_where-nothing id rows (ground (arith, miss, h))))
]

delete_where-free :
    (id : ℕ) (rows : List Row)
    → All (λ (x : Row). x.id ≢ id) (delete_where (λ (x : Row). x.id == id) rows)
unfolding delete_where
delete_where-free id [] = tt
delete_where-free id (x ∷ rows) = elim (Bool-cases (x.id == id)) [
  | inl hit ↦ rw hit (delete_where-free id rows)
  | inr miss ↦ rw miss (λ e. ground (arith, miss), delete_where-free id rows)
]

remove_by_id-outcome :
    (fault : Option Error) (id : ℕ) (s : Store)
    → ((e : Error) × (remove_by_id fault id s ≡ (s, err e)))
      ⊎ ((s' : Store) × (remove_by_id fault id s ≡ (s', ok tt)) × IsFree id s')
unfolding remove_by_id affected delete_where
remove_by_id-outcome (some e) id s = inl (e, refl)
remove_by_id-outcome none id s =
    let hits = length (select (λ (x : Row). x.id == id) s.rows) in
    elim (Bool-cases (hits == 0)) [
      | inl zero' ↦
          let same' = delete_where-nothing id s.rows (ground arith) in
          inl ("no job found with id", rw (zero', same') refl)
      | inr some' ↦ inr (
        record s { rows = delete_where (λ (x : Row). x.id == id) s.rows },
        rw some' refl,
        delete_where-free id s.rows,
      )
    ]

write-cookies : (b : Body) (w : Writer) → (write b w).cookies ≡ w.cookies
unfolding write write_header
write-cookies b w = elim (Option-cases w.status) [ inl e ↦ rw e refl | inr (code, e) ↦ rw e refl ]

list_enqueued-cookies :
    (f : Faults) (r : Request) (s : Store) → (list_enqueued f r s fresh).cookies ≡ []
unfolding http_error write write_header
list_enqueued-cookies f r s = elim (Result-cases (page_of f r s)) [
  | inl (jobs, e) ↦ rw e refl
  | inr (e, bad) ↦ rw bad refl
]

-- An outcome of the action, as the handler goes on with it.
finish :
    (f : Faults) (r : Request) (t : Tables) (o : Outcome)
    → handle_dashboard_action f.remove r fresh t.enqueued ≡ o
    → IsHandled r t (enqueued_after f r t o)
    → IsHandled r t (enqueued f r t)
unfolding enqueued
finish f r t o e h = rw e h

refused :
    (f : Faults) (r : Request) (t : Tables) (e : Error)
    → IsHandled r t (enqueued_after f r t (t.enqueued, fresh, err e))
unfolding http_error write_header
refused f r t e = inl (refl, write-cookies (message e) (write_header 400 fresh))

remove-IsHandled :
    (f : Faults) (r : Request) (t : Tables)
    → requested_action r ≡ codes "remove"
    → (id : Option ℕ) → atoi (form_value r (codes "id")) ≡ id
    → IsHandled r t (enqueued_after f r t (remove_parsed f.remove r fresh id t.enqueued))
remove-IsHandled f r t act none e = refused f r t "invalid job id"
remove-IsHandled f r t act (some id) e = elim (remove_by_id-outcome f.remove id t.enqueued) [
  | inl (e', out) ↦ rw out (refused f r t _)
  | inr (s', out, free) ↦ rw out (
      inr (
        list_enqueued-Announces f r s' (announce_removal r fresh) (announce_removal-fresh r),
        inl (id, e, act, free),
      ))
]

-- A request to the list of enqueued jobs either changes no table and announces nothing; or it
-- announces that a job was removed, and then either its action is "remove" and no job has the id of the
-- request any more, or its action is another text than "remove" and no table has changed.
pub enqueued-IsHandled : (f : Faults) (r : Request) (t : Tables) → IsHandled r t (enqueued f r t)
unfolding handle_dashboard_action
enqueued-IsHandled f r t =
    let action = requested_action r in
    elim (Bool-cases (same action [])) [
      | inl none' ↦
          finish f r t (t.enqueued, fresh, ok tt) (rw none' refl)
            (inl (refl, list_enqueued-cookies f r t.enqueued))
      | inr some' ↦ elim (Bool-cases (same action (codes "remove"))) [
        | inl yes' ↦
            finish f r t
              (remove_parsed f.remove r fresh (atoi (form_value r (codes "id"))) t.enqueued)
              (rw (some', yes') refl)
              (remove-IsHandled f r t (same-eq action (codes "remove") yes')
                (atoi (form_value r (codes "id"))) refl)
        | inr no' ↦
            finish f r t (t.enqueued, announce_removal r fresh, ok tt) (rw (some', no') refl)
              (inr (
                list_enqueued-Announces f r t.enqueued (announce_removal r fresh)
                    (announce_removal-fresh r),
                inr (λ e. absurd (let k = rw (e, same) at no' in cc), refl),
              ))
      ]
    ]
