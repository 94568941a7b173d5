-- ===== src/Tests/Scripts.antt =====
-- Runs of the dashboard's script, and the theorems about it at concrete inputs.
use go_fire.Base.{◌≡◌, refl, true, none, some, [], ◌∷◌, map, arith, All}
use go_fire.Text.{codes, split, split_str, is_space}
use go_fire.Web.Uri.{query_escape, decode_uri_component}
use go_fire.Web.Uri.Laws.{IsScalar}
use go_fire.Web.Scripts.{go_to_page, title}
use go_fire.Web.Scripts.Pager.{SearchParams, load_page}
use go_fire.Web.Scripts.Confirm.{Button, Reaction, dialog_of, on_ready, click}
use go_fire.Web.Scripts.Confirm.Laws.{options_of, forms, form_once, click-on_ready}
use go_fire.Web.Scripts.Messages.{get_cookie, document_cookie, on_load, success, warning, Jar}
use go_fire.Web.Scripts.Messages.Laws.{on_load_again, reload, warns}
use go_fire.Web.Scripts.Messages.Delivery.{on_load-delivers}

titles :
    (title (codes "/cron%2Djobs/") ≡ some (codes "cron-jobs"))
    × (title (codes "/") ≡ some (codes "Home"))
unfolding title split decode_uri_component
titles = (refl, refl)

pager :
    (go_to_page (some (codes "4")) (codes "next") ≡ some 5)
    × (go_to_page none (codes "prev") ≡ none)
    × (go_to_page (some (codes " 12px")) (codes "prev") ≡ some 11)
unfolding go_to_page is_space
pager = (refl, refl, refl)

two_cookies :
    get_cookie
      (document_cookie ((codes "auth", codes "x") ∷ (codes "flash", codes "Job+removed") ∷ []))
      (codes "flash")
    ≡ some (codes "Job removed")
unfolding get_cookie document_cookie split split_str
two_cookies = refl

-- A flash message is shown once; a warning is not removed.
flash_and_warning : on_load ((codes "flash", codes "a") ∷ (codes "warning", codes "b") ∷ []) ≡ (
  (codes "warning", codes "b") ∷ [],
  record { icon = success; message = codes "a" }
      ∷ record { icon = warning; message = codes "b" }
      ∷ [],
)
unfolding on_load split split_str decode_uri_component
flash_and_warning = refl

abbrev fourth : SearchParams
fourth = (codes "status", codes "dead") ∷ (codes "page", codes "4") ∷ []

next_page :
    load_page (codes "next") fourth
    ≡ some ((codes "status", codes "dead") ∷ (codes "page", codes "5") ∷ [])
unfolding load_page go_to_page is_space
next_page = refl

-- QueryEscape writes UTF-8; decodeURIComponent reads it.
escapes :
    (query_escape (codes "Jöb 1;€") ≡ codes "J%C3%B6b+1%3B%E2%82%AC")
    × (decode_uri_component (codes "J%C3%B6b 1%3b") ≡ some (codes "Jöb 1;"))
    × (decode_uri_component (codes "100%") ≡ none)
    × (decode_uri_component (codes "%C0%80") ≡ none)
unfolding query_escape decode_uri_component
escapes = (refl, refl, refl, refl)

IsScalar-message : All IsScalar (codes "Größe?")
IsScalar-message = ground arith

on_load-delivers_example :
    on_load ((codes "lang", codes "en") ∷ (codes "flash", query_escape (codes "Größe?")) ∷ [])
    ≡ ((codes "lang", codes "en") ∷ [], record { icon = success; message = codes "Größe?" } ∷ [])
on_load-delivers_example =
    on_load-delivers ((codes "lang", codes "en") ∷ []) [] (codes "Größe?")
      ((refl, omega arith, omega arith, omega arith), tt) tt
      ((refl, omega arith, omega arith, omega arith), tt) tt IsScalar-message (λ e. cc)

abbrev removal : Button
removal = record { id = 7; classes = codes "btn" ∷ codes "delete-btn" ∷ []; form = 3 }

abbrev other_button : Button
other_button = record { id = 8; classes = codes "run-btn" ∷ []; form = 4 }

abbrev both : Button
both = record { id = 9; classes = codes "change-status-btn" ∷ codes "run-btn" ∷ []; form = 5 }

-- Of two dialogs the first is replaced and submits nothing.
confirmed :
    map
      (λ (r : Reaction). r.submitted)
      (click (on_ready (removal ∷ other_button ∷ both ∷ [])) both true)
    ≡ none ∷ some 5 ∷ []
unfolding click on_ready
confirmed = refl

click-on_ready_example :
    let rs = click (on_ready (other_button ∷ both ∷ removal ∷ [])) both true in
    (map (λ (r : Reaction). r.dialog) rs ≡ map dialog_of (options_of both))
    × (forms rs ≡ form_once both true (options_of both))
click-on_ready_example =
    click-on_ready (other_button ∷ []) (removal ∷ []) both true ((λ e. cc), tt) ((λ e. cc), tt)

abbrev warned : Jar
warned = (codes "warning", codes "b+c") ∷ []

no_flash_found : get_cookie (document_cookie warned) (codes "flash") ≡ none
unfolding get_cookie document_cookie split split_str
no_flash_found = refl

warning_found : get_cookie (document_cookie warned) (codes "warning") ≡ some (codes "b c")
unfolding get_cookie document_cookie split split_str
warning_found = refl

warning_decoded : decode_uri_component (codes "b c") ≡ some (codes "b c")
unfolding decode_uri_component
warning_decoded = refl

on_load_again_example : on_load (reload 2 warned) ≡ (warned, warns (codes "b c"))
on_load_again_example =
    on_load_again 2 warned 98 (codes " c") (codes "b c") (refl, tt) no_flash_found warning_found
      warning_decoded
