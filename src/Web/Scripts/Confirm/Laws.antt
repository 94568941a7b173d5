-- ===== src/Web/Scripts/Confirm/Laws.antt =====
-- What a click on a button with a confirmation does.
use go_fire.Base.{
  ℕ, ◌≡◌, ◌≢◌, refl, ap, ◌∙◌, Bool, true, false, List, [], ◌∷◌, ◌++◌, map, map-append, none, some,
  arith, All, Bool-cases, inl, inr, select, ◌==◌, if◌then◌else◌,
}
use go_fire.Text.{Text, codes}
use go_fire.Web.Scripts.Confirm.{
  Options, Button, Listener, Reaction, dialog_of, delete_options, change_status_options,
  run_options, has_class, attach_confirmation_to_forms, on_ready, react, answers, click,
}

abbrev chosen : Button → Text → Options → List Options
chosen b name o = if has_class name b then o ∷ [] else []

-- The dialogs that a button has, in the order of their classes in the script.
abbrev pub options_of : Button → List Options
options_of b =
    (chosen b (codes "delete-btn") delete_options
      ++ chosen b (codes "change-status-btn") change_status_options)
    ++ chosen b (codes "run-btn") run_options

select-append :
    (p : Listener → Bool) (xs ys : List Listener) → select p (xs ++ ys) ≡ select p xs ++ select p ys
select-append p [] ys = refl
select-append p (x ∷ xs) ys = ground (arith, select-append p xs ys)

module _ (b : Button) where
  abbrev listens : Listener → Bool
  listens l = l.button.id == b.id

  abbrev Differs : Button → Type 0
  Differs q = q.id ≢ b.id

  module _ (name : Text) (options : Options) where
    abbrev attached : List Button → List Listener
    attached buttons =
        map (λ q. record { button = q; options = options }) (select (has_class name) buttons)

    attached-other :
        (buttons : List Button) → All Differs buttons → select listens (attached buttons) ≡ []
    attached-other [] h = refl
    attached-other (q ∷ buttons) h = elim (Bool-cases (has_class name q)) [
      | inl has ↦ rw has (ground (arith, h.0, attached-other buttons h.1))
      | inr hasnt ↦ rw hasnt (attached-other buttons h.1)
    ]

    attached-own :
        (before after : List Button)
        → All Differs before
        → All Differs after
        → select listens (attached (before ++ b ∷ after))
          ≡ (if has_class name b then record { button = b; options = options } ∷ [] else [])
    attached-own [] after hb ha = elim (Bool-cases (has_class name b)) [
      | inl has ↦
          let same' : (b.id == b.id) ≡ true = ground arith in
          rw (has, same')
            (ap (λ l. record { button = b; options = options } ∷ l) (attached-other after ha))
      | inr hasnt ↦ rw hasnt (attached-other after ha)
    ]
    attached-own (q ∷ before) after hb ha = elim (Bool-cases (has_class name q)) [
      | inl has ↦ rw has (ground (arith, hb.0, attached-own before after hb.1 ha))
      | inr hasnt ↦ rw hasnt (attached-own before after hb.1 ha)
    ]

abbrev bound : Button → Options → Listener
bound b o = record { button = b; options = o }

map-chosen :
    (b : Button) (has : Bool) (o : Options)
    → (if has then bound b o ∷ [] else []) ≡ map (bound b) (if has then o ∷ [] else [])
map-chosen b true o = refl
map-chosen b false o = refl

module _ (b : Button) (before after : List Button) where
  abbrev buttons : List Button
  buttons = before ++ b ∷ after

  select-attached :
      (name : Text) (o : Options)
      → All (λ q. q.id ≢ b.id) before
      → All (λ q. q.id ≢ b.id) after
      → select (listens b) (attached b name o buttons)
        ≡ map (bound b) (if has_class name b then o ∷ [] else [])
  select-attached name o hb ha =
      attached-own b name o before after hb ha ∙ map-chosen b (has_class name b) o

  listeners-append :
      (xs ys : List Listener) (us vs : List Options)
      → select (listens b) xs ≡ map (bound b) us
      → select (listens b) ys ≡ map (bound b) vs
      → select (listens b) (xs ++ ys) ≡ map (bound b) (us ++ vs)
  listeners-append xs ys us vs h k = rw (select-append (listens b) xs ys, map-append, h, k) refl

  -- The listeners on a button.
  select-on_ready :
      All (λ q. q.id ≢ b.id) before
      → All (λ q. q.id ≢ b.id) after
      → select (listens b) (on_ready buttons) ≡ map (bound b) (options_of b)
  unfolding on_ready attach_confirmation_to_forms
  select-on_ready hb ha =
      let removal = chosen b (codes "delete-btn") delete_options in
      let change = chosen b (codes "change-status-btn") change_status_options in
      listeners-append _ _ (removal ++ change) (chosen b (codes "run-btn") run_options)
        (listeners-append _ _ removal change
          (select-attached (codes "delete-btn") delete_options hb ha)
          (select-attached (codes "change-status-btn") change_status_options hb ha))
        (select-attached (codes "run-btn") run_options hb ha)

-- The forms that are submitted.
abbrev pub forms : List Reaction → List ℕ
forms [] = []
forms (r ∷ rs) = elim r.submitted [ none ↦ forms rs | some form ↦ form ∷ forms rs ]

-- The form of a button once, where the user confirms and there is a dialog.
abbrev pub form_once : Button → Bool → List Options → List ℕ
form_once b is_confirmed [] = []
form_once b is_confirmed (o ∷ os) = if is_confirmed then b.form ∷ [] else []

answers-dialogs :
    (b : Button) (is_confirmed : Bool) (os : List Options)
    → map (λ (r : Reaction). r.dialog) (answers is_confirmed (map (bound b) os)) ≡ map dialog_of os
unfolding answers react
answers-dialogs b is_confirmed [] = refl
answers-dialogs b is_confirmed (o ∷ []) = refl
answers-dialogs b is_confirmed (o ∷ o' ∷ os) =
    ap (λ ds. dialog_of o ∷ ds) (answers-dialogs b is_confirmed (o' ∷ os))

answers-forms :
    (b : Button) (is_confirmed : Bool) (os : List Options)
    → forms (answers is_confirmed (map (bound b) os)) ≡ form_once b is_confirmed os
unfolding answers react
answers-forms b is_confirmed [] = refl
answers-forms b true (o ∷ []) = refl
answers-forms b false (o ∷ []) = refl
answers-forms b is_confirmed (o ∷ o' ∷ os) = answers-forms b is_confirmed (o' ∷ os)

-- A click on a button of a page on which no other button is the same element asks for a dialog for each of
-- the button's classes, in the order of the script; and it submits the button's form once where the user
-- confirms and there is a dialog, and no form else: a dialog that the next one replaces submits nothing.
pub click-on_ready :
    (before after : List Button) (b : Button) (is_confirmed : Bool)
    → All (λ q. q.id ≢ b.id) before
    → All (λ q. q.id ≢ b.id) after
    → let rs = click (on_ready (before ++ b ∷ after)) b is_confirmed in
      (map (λ (r : Reaction). r.dialog) rs ≡ map dialog_of (options_of b))
      × (forms rs ≡ form_once b is_confirmed (options_of b))
unfolding click
click-on_ready before after b is_confirmed hb ha =
    rw (select-on_ready b before after hb ha)
      (answers-dialogs b is_confirmed (options_of b), answers-forms b is_confirmed (options_of b))
