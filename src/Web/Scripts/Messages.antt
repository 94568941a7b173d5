-- ===== src/Web/Scripts/Messages.antt =====
-- The messages that the server leaves in cookies (web/static/assets/js/scripts.js): how the page reads,
-- shows and removes them.
pub mod Laws
pub mod Cookies
pub mod Delivery
use go_fire.Base.{ℕ, not, List, [], ◌∷◌, ◌++◌, map, Option, none, some, select}
use go_fire.Text.{Text, codes, same, split, split_str}
use go_fire.Web.Uri.{decode_uri_component, plus_to_space}

-- The cookies of the browser, by name.
abbrev pub Jar : Type 0
Jar = List (Text × Text)

abbrev pair_text : Text × Text → Text
pair_text (name, value) = name ++ b'=' ∷ value

-- `document.cookie`.
unfoldable pub document_cookie : Jar → Text
document_cookie [] = []
document_cookie (p ∷ []) = pair_text p
document_cookie (p ∷ q ∷ jar) = pair_text p ++ b';' ∷ b' ' ∷ document_cookie (q ∷ jar)

-- Setting `name=; Max-Age=0` removes the cookie.
unfoldable pub expire : Text → Jar → Jar
expire name jar = select (λ p. not (same p.0 name)) jar

abbrev first : List Text → Text
first [] = []
first (p ∷ ps) = p

abbrev of_parts : List Text → Option Text
of_parts (before ∷ after ∷ []) = some (map plus_to_space (first (split b';' after)))
of_parts _ = none

-- `getCookie(name)`, for the text of document.cookie.
unfoldable pub get_cookie : Text → Text → Option Text
get_cookie cookie name =
    of_parts (split_str (b';' ∷ b' ' ∷ name ++ b'=' ∷ []) (b';' ∷ b' ' ∷ cookie))

pub data Icon : Type 0 where
  success warning : Icon

-- A message that the page shows.
pub record Alert : Type 0 where
  pub icon : Icon
  pub message : Text

-- `Swal.fire(… decodeURIComponent(message) …); document.cookie = "flash=; Max-Age=0; path=/"`, for a
-- message as it is decoded; none where decodeURIComponent throws, before the dialog is shown.
unfoldable pub show_decoded : Icon → Option Text → Jar → Option (Jar × List Alert)
unfolding expire
show_decoded icon none jar = none
show_decoded icon (some s) jar =
    some (expire (codes "flash") jar, record { icon = icon; message = s } ∷ [])

-- One `if (message) { … }`.
unfoldable pub show : Icon → Option Text → Jar → Option (Jar × List Alert)
unfolding show_decoded
show icon none jar = some (jar, [])
show icon (some []) jar = some (jar, [])
show icon (some (c ∷ s)) jar = show_decoded icon (decode_uri_component (c ∷ s)) jar

-- The second half of the handler: the warning, behind what the first half has shown.
unfoldable pub show_warning : Jar → List Alert → Jar × List Alert
unfolding show get_cookie document_cookie
show_warning jar flashes =
    elim (show warning (get_cookie (document_cookie jar) (codes "warning")) jar) [
      | none ↦ (jar, flashes)
      | some (jar', warnings) ↦ (jar', flashes ++ warnings)
    ]

-- The handler of DOMContentLoaded that shows the messages. An exception ends it.
unfoldable pub on_load : Jar → Jar × List Alert
unfolding show_warning show get_cookie document_cookie
on_load jar = elim (show success (get_cookie (document_cookie jar) (codes "flash")) jar) [
  | none ↦ (jar, [])
  | some (jar', flashes) ↦ show_warning jar' flashes
]
