-- ===== src/Web/Scripts/Messages/Delivery.antt =====
-- The way of a message from the server to the page: url.QueryEscape and http.SetCookie
-- (web/route_handler.go), document.cookie, getCookie and decodeURIComponent.
use go_fire.Base.{
  ℕ, ◌<◌, ◌≡◌, ◌≢◌, refl, ap, ◌∙◌, true, List, [], ◌∷◌, ◌++◌, some, arith, All, Bool-cases, inl,
  inr, ◌==◌,
}
use go_fire.Text.{Text, codes, same}
use go_fire.Web.Uri.{
  query_escape, decode_uri_component, escape_byte, escape_bytes, utf8, unreserved, pieces, join,
}
use go_fire.Web.Uri.Laws.{IsScalar, decode-query_escape, utf8-bytes}
use go_fire.Web.Scripts.Messages.{
  Jar, Icon, success, expire, show, show_decoded, show_warning, on_load,
}
use go_fire.Web.Scripts.Messages.Cookies.{
  Without, IsOther, Without-append, get_cookie-own, get_cookie-none,
}

escape_byte-plain : (b : ℕ) → b < 256 → Without b';' (escape_byte b)
unfolding escape_byte
escape_byte-plain b lt = elim (Bool-cases (unreserved b)) [
  | inl u ↦ rw u ((λ e. ground arith), tt)
  | inr r ↦ rw r (elim (Bool-cases (b == b' ')) [
    | inl sp ↦ rw sp ((λ e. cc), tt)
    | inr ns ↦ rw ns ((λ e. cc), ((λ e. ground arith), ((λ e. ground arith), tt)))
  ])
]

escape_bytes-plain : (bs : List ℕ) → All (λ b. b < 256) bs → Without b';' (escape_bytes bs)
unfolding escape_bytes
escape_bytes-plain [] h = tt
escape_bytes-plain (b ∷ bs) h =
    Without-append b';' (escape_byte b) _ (escape_byte-plain b h.0) (escape_bytes-plain bs h.1)

query_escape-plain : (s : Text) → All IsScalar s → Without b';' (query_escape s)
unfolding query_escape
query_escape-plain [] h = tt
query_escape-plain (c ∷ s) h =
    Without-append b';' (escape_bytes (utf8 c)) _ (escape_bytes-plain (utf8 c) (utf8-bytes c h.0))
      (query_escape-plain s h.1)

expire-other : (name : Text) (jar : Jar) → All (IsOther name) jar → expire name jar ≡ jar
unfolding expire
expire-other name [] h = refl
expire-other name (p ∷ jar) h = rw h.0.0 (ap (λ j. p ∷ j) (expire-other name jar h.1))

expire-own :
    (name : Text) (before after : Jar) (value : Text)
    → same name name ≡ true
    → All (IsOther name) before
    → All (IsOther name) after
    → expire name (before ++ (name, value) ∷ after) ≡ before ++ after
unfolding expire
expire-own name [] after value e hb ha = rw e (expire-other name after ha)
expire-own name (p ∷ before) after value e hb ha =
    rw hb.0.0 (ap (λ j. p ∷ j) (expire-own name before after value e hb.1 ha))

show-decoded :
    (icon : Icon) (e s : Text) (jar : Jar)
    → decode_uri_component e ≡ some s
    → s ≢ []
    → show icon (some e) jar ≡ show_decoded icon (some s) jar
unfolding show decode_uri_component pieces join
show-decoded icon [] s jar d ne = absurd (ne (cc))
show-decoded icon (c ∷ e) s jar d ne = ap (λ m. show_decoded icon m jar) d

All-join {ℓ κ} :
    {A : Type ℓ} (P : A → Type κ) (xs ys : List A) → All P xs → All P ys → All P (xs ++ ys)
All-join P [] ys h k = k
All-join P (x ∷ xs) ys h k = (h.0, All-join P xs ys h.1 k)

abbrev flash_name : Text
flash_name = codes "flash"

abbrev warning_name : Text
warning_name = codes "warning"

show_decoded-own :
    (before after : Jar) (message : Text)
    → All (IsOther flash_name) before
    → All (IsOther flash_name) after
    → show_decoded success (some message) (before ++ (flash_name, query_escape message) ∷ after)
      ≡ some (before ++ after, record { icon = success; message = message } ∷ [])
unfolding show_decoded
show_decoded-own before after message fb fa =
    ap (λ j. some (j, record { icon = success; message = message } ∷ []))
      (expire-own flash_name before after (query_escape message) refl fb fa)

-- Every text of Unicode that is not empty reaches the page: where the server sets the cookie flash
-- to what QueryEscape makes of it, and no cookie is named warning, loading the page shows the text
-- in one message of success, and removes that cookie and no other.
pub on_load-delivers :
    (before after : Jar) (message : Text)
    → All (IsOther (codes "flash")) before
    → All (IsOther (codes "flash")) after
    → All (IsOther (codes "warning")) before
    → All (IsOther (codes "warning")) after
    → All IsScalar message
    → message ≢ []
    → on_load (before ++ (codes "flash", query_escape message) ∷ after)
      ≡ (before ++ after, record { icon = success; message = message } ∷ [])
unfolding on_load
on_load-delivers before after message fb fa wb wa scalar ne =
    let jar = before ++ (flash_name, query_escape message) ∷ after in
    let found =
      get_cookie-own flash_name (omega arith) before after (query_escape message) fb fa
        (query_escape-plain message scalar) in
    let shown =
      ap (λ m. show success m jar) found
      ∙ show-decoded success _ message jar (decode-query_escape message scalar) ne
      ∙ show_decoded-own before after message fb fa in
    let quiet =
      get_cookie-none warning_name (omega arith) (before ++ after)
        (All-join _ before after wb wa) in
    rw (shown, on_load) (rw (quiet, show_warning, show) refl)
