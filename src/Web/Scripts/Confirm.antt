-- ===== src/Web/Scripts/Confirm.antt =====
-- The confirmation dialogs (web/static/assets/js/scripts.js): the listeners that the script adds to
-- the buttons of a page, and what a click does.
pub mod Laws
use go_fire.Base.{
  ℕ, Bool, true, false, List, [], ◌∷◌, ◌++◌, map, Option, none, some, if◌then◌else◌, select, any,
  ◌==◌,
}
use go_fire.Text.{Text, codes, same}
use go_fire.Web.Scripts.{or_text}

-- The options of attachConfirmationToForms. An option that is not given is the empty text.
pub record Options : Type 0 where
  pub title : Text
  pub text : Text
  pub icon : Text
  pub confirm_button_color : Text
  pub cancel_button_color : Text
  pub confirm_button_text : Text

-- What the dialog shows.
pub record Dialog : Type 0 where
  pub title : Text
  pub text : Text
  pub icon : Text
  pub confirm_button_color : Text
  pub cancel_button_color : Text
  pub confirm_button_text : Text

unfoldable pub dialog_of : Options → Dialog
dialog_of o = record {
  title = or_text o.title (codes "Are you sure?");
  text = o.text;
  icon = or_text o.icon (codes "warning");
  confirm_button_color = or_text o.confirm_button_color (codes "#3085d6");
  cancel_button_color = or_text o.cancel_button_color (codes "#aaa");
  confirm_button_text = codes "Yes, proceed!";
}

abbrev pub delete_options : Options
delete_options = record {
  title = codes "Are you sure?";
  text = codes "This job will be removed.";
  icon = codes "warning";
  confirm_button_color = codes "#d33";
  cancel_button_color = [];
  confirm_button_text = codes "Yes, delete it!";
}

abbrev pub change_status_options : Options
change_status_options = record {
  title = codes "Are you sure?";
  text = [];
  icon = codes "warning";
  confirm_button_color = codes "#d33";
  cancel_button_color = [];
  confirm_button_text = codes "Yes, delete it!";
}

abbrev pub run_options : Options
run_options = record {
  title = codes "Run this job?";
  text = codes "This job will be executed immediately.";
  icon = codes "question";
  confirm_button_color = codes "#3085d6";
  cancel_button_color = [];
  confirm_button_text = codes "Yes, run it!";
}

-- An element of the page, with its classes and the form around it.
pub record Button : Type 0 where
  pub id : ℕ
  pub classes : List Text
  pub form : ℕ

pub record Listener : Type 0 where
  pub button : Button
  pub options : Options

-- Whether a selector `.name` fits.
unfoldable pub has_class : Text → Button → Bool
has_class name b = any (same name) b.classes

-- attachConfirmationToForms, with the listeners that are there and the class of the selector.
unfoldable pub attach_confirmation_to_forms :
    Text → Options → List Button → List Listener → List Listener
unfolding has_class
attach_confirmation_to_forms name options buttons listeners =
    listeners
    ++ map (λ b. record { button = b; options = options }) (select (has_class name) buttons)

-- The handler of DOMContentLoaded.
unfoldable pub on_ready : List Button → List Listener
unfolding attach_confirmation_to_forms
on_ready buttons = attach_confirmation_to_forms (codes "run-btn") run_options buttons (
    attach_confirmation_to_forms (codes "change-status-btn") change_status_options buttons
      (attach_confirmation_to_forms (codes "delete-btn") delete_options buttons []))

-- What one listener does: its dialog, and the form that it submits, where the user confirms.
pub record Reaction : Type 0 where
  pub dialog : Dialog
  pub submitted : Option ℕ

unfoldable pub react : Bool → Listener → Reaction
unfolding dialog_of
react is_confirmed l = record {
  dialog = dialog_of l.options;
  submitted = (if is_confirmed then some l.button.form else none);
}

-- The reactions of the listeners that fire at a click, with the answer of the user. A Swal.fire replaces the
-- dialog that is open and resolves it as dismissed, so that the user answers the last one.
unfoldable pub answers : Bool → List Listener → List Reaction
unfolding react
answers is_confirmed [] = []
answers is_confirmed (l ∷ []) = react is_confirmed l ∷ []
answers is_confirmed (l ∷ l' ∷ ls) = react false l ∷ answers is_confirmed (l' ∷ ls)

-- A click on a button, with the answer of its user: the reactions of its listeners.
unfoldable pub click : List Listener → Button → Bool → List Reaction
unfolding answers
click listeners b is_confirmed = answers is_confirmed (select (λ l. l.button.id == b.id) listeners)
