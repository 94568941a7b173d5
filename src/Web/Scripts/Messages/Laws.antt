-- ===== src/Web/Scripts/Messages/Laws.antt =====
-- A warning is shown again on every load, for its cookie stays.
use go_fire.Base.{◌≡◌, refl, false, none, some, [], ◌∷◌, All, ap, List, ℕ, zero, suc}
use go_fire.Text.{Text, codes, same}
use go_fire.Web.Uri.{decode_uri_component}
use go_fire.Web.Scripts.Messages.{
  Jar, Alert, on_load, expire, warning, show, show_decoded, show_warning, get_cookie,
  document_cookie,
}

expire_lem :
    (name : Text) (jar : Jar) → All (λ p. same p.0 name ≡ false) jar → expire name jar ≡ jar
unfolding expire
expire_lem name [] h = refl
expire_lem name (p ∷ jar) h = rw (h.0) (ap (λ j. p ∷ j) (expire_lem name jar h.1))

abbrev pub NoFlash : Jar → Type 0
NoFlash = All (λ p. same p.0 (codes "flash") ≡ false)

-- What the page shows for a warning.
abbrev pub warns : Text → List Alert
warns msg = record { icon = warning; message = msg } ∷ []

show_warning-shows :
    (jar : Jar) (c : ℕ) (w msg : Text)
    → NoFlash jar
    → get_cookie (document_cookie jar) (codes "warning") ≡ some (c ∷ w)
    → decode_uri_component (c ∷ w) ≡ some msg
    → show_warning jar [] ≡ (jar, warns msg)
unfolding show_warning show show_decoded
show_warning-shows jar c w msg h found decoded =
    rw (show_warning, found, show, decoded, show_decoded)
      (ap (λ j. (j, warns msg)) (expire_lem (codes "flash") jar h))

on_load-warns :
    (jar : Jar) (c : ℕ) (w msg : Text)
    → NoFlash jar
    → get_cookie (document_cookie jar) (codes "flash") ≡ none
    → get_cookie (document_cookie jar) (codes "warning") ≡ some (c ∷ w)
    → decode_uri_component (c ∷ w) ≡ some msg
    → on_load jar ≡ (jar, warns msg)
unfolding on_load show
on_load-warns jar c w msg h quiet found decoded =
    rw (on_load, quiet, show) (show_warning-shows jar c w msg h found decoded)

-- The cookies after some loads of the page, where the server sets none.
unfoldable pub reload : ℕ → Jar → Jar
unfolding on_load
reload zero jar = jar
reload (suc n) jar = reload n (on_load jar).0

-- Where no cookie is named flash, none is found under that name, and the cookie warning is found and
-- decodes to a text: each load of the page, however often it has been loaded before, shows the text as a
-- warning and nothing else, and leaves the cookies as they were at first.
pub on_load_again :
    (n : ℕ) (jar : Jar) (c : ℕ) (w msg : Text)
    → NoFlash jar
    → get_cookie (document_cookie jar) (codes "flash") ≡ none
    → get_cookie (document_cookie jar) (codes "warning") ≡ some (c ∷ w)
    → decode_uri_component (c ∷ w) ≡ some msg
    → on_load (reload n jar) ≡ (jar, warns msg)
unfolding reload
on_load_again zero jar c w msg h quiet found decoded =
    on_load-warns jar c w msg h quiet found decoded
on_load_again (suc n) jar c w msg h quiet found decoded =
    rw (on_load-warns jar c w msg h quiet found decoded)
      (on_load_again n jar c w msg h quiet found decoded)
