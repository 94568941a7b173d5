-- ===== src/Web/Auth/Token.antt =====
-- Which tokens a key accepts.
use go_fire.Base.{◌<◌, ◌≡◌, ◌↔◌, refl, sym, ◌∙◌, true, List, [], ◌∷◌, ◌++◌, arith, All}
use go_fire.Text.{Text, same, split_from, split}
use go_fire.Text.Same.{same_refl, same-eq}
use go_fire.Web.Uri.{utf8}
use go_fire.Web.Uri.Laws.{IsScalar, utf8-bytes}
use go_fire.Web.Base64.{encode}
use go_fire.Web.Base64.Laws.{IsPlain, encode-IsPlain, decode-encode}
use go_fire.Web.Auth.{Hmac, bytes, generate_auth_token, is_valid_auth_token}

module _ {ℓ κ} {A : Type ℓ} (P : A → Type κ) where
  All-append : (xs ys : List A) → All P xs → All P ys → All P (xs ++ ys)
  All-append [] ys h k = k
  All-append (x ∷ xs) ys h k = (h.0, All-append xs ys h.1 k)

bytes-small : (s : Text) → All IsScalar s → All (λ b. b < 256) (bytes s)
unfolding bytes
bytes-small [] h = tt
bytes-small (c ∷ s) h =
    All-append (λ b. b < 256) (utf8 c) (bytes s) (utf8-bytes c h.0) (bytes-small s h.1)

-- The character `|` is not of the alphabet.
split_from-plain : (s : Text) → All IsPlain s → split_from b'|' s ≡ (s, [])
unfolding split_from
split_from-plain [] h = refl
split_from-plain (c ∷ s) h = rw (split_from-plain s h.1) (ground (arith, h.0))

split_from-two :
    (s t : Text) → All IsPlain s → All IsPlain t → split_from b'|' (s ++ b'|' ∷ t) ≡ (s, t ∷ [])
unfolding split_from
split_from-two [] t h k = rw (split_from-plain t k) refl
split_from-two (c ∷ s) t h k = rw (split_from-two s t h.1 k) (ground (arith, h.0))

split-two : (s t : Text) → All IsPlain s → All IsPlain t → split b'|' (s ++ b'|' ∷ t) ≡ s ∷ t ∷ []
unfolding split
split-two s t h k = rw (split_from-two s t h k) refl

valid-generated :
    (hmac : Hmac) (user key key' : Text)
    → All IsScalar user
    → is_valid_auth_token hmac (generate_auth_token hmac user key) key'
      ≡ same (hmac.sum (bytes key) (bytes user)) (hmac.sum (bytes key') (bytes user))
unfolding is_valid_auth_token generate_auth_token
valid-generated hmac user key key' h =
    let small = bytes-small user h in
    let mac = hmac.sum (bytes key) (bytes user) in
    let small' = hmac.sum-bytes (bytes key) (bytes user) in
    rw
      (
        split-two (encode (bytes user)) (encode mac) (encode-IsPlain (bytes user) small)
            (encode-IsPlain mac small'),
        decode-encode (bytes user) small,
        decode-encode mac small',
      )
      refl

-- A token that was made with one key for a user, whose name may hold any character, is valid for
-- another key exactly where both keys give the same signature of the name: always for the same key.
pub valid-generate_auth_token :
    (hmac : Hmac) (user key key' : Text)
    → All IsScalar user
    → (is_valid_auth_token hmac (generate_auth_token hmac user key) key' ≡ true)
      ↔ (hmac.sum (bytes key) (bytes user) ≡ hmac.sum (bytes key') (bytes user))
valid-generate_auth_token hmac user key key' h =
    let e = valid-generated hmac user key key' h in
    let mac = hmac.sum (bytes key) (bytes user) in
    let mac' = hmac.sum (bytes key') (bytes user) in
    (λ v. same-eq mac mac' (sym e ∙ v), λ k. e ∙ (rw (← k) (same_refl mac)))
