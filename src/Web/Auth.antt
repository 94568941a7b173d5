-- ===== src/Web/Auth.antt =====
-- The token of a login (web/auth_cookie_validator.go). HMAC-SHA256 is a parameter: what it makes of a
-- key and a message, all of them bytes.
pub mod Token
use go_fire.Base.{ℕ, ◌<◌, Bool, false, List, [], ◌∷◌, ◌++◌, Option, none, some, All}
use go_fire.Text.{Text, codes, same, split}
use go_fire.Web.Uri.{utf8}
use go_fire.Web.Base64.{encode, decode}

pub record Hmac : Type 0 where
  pub sum : List ℕ → List ℕ → List ℕ
  pub sum-bytes : (key message : List ℕ) → All (λ b. b < 256) (sum key message)

-- `[]byte(s)`.
unfoldable pub bytes : Text → List ℕ
unfolding utf8
bytes [] = []
bytes (c ∷ s) = utf8 c ++ bytes s

unfoldable pub generate_auth_token : Hmac → Text → Text → Text
unfolding bytes encode
generate_auth_token hmac username secret_key =
    encode (bytes username) ++ b'|' ∷ encode (hmac.sum (bytes secret_key) (bytes username))

-- `hmac.Equal` of the signature and the one that the key gives.
abbrev pub verify : Hmac → Text → List ℕ → Option (List ℕ) → Bool
verify hmac secret_key username none = false
verify hmac secret_key username (some expected) =
    same expected (hmac.sum (bytes secret_key) username)

abbrev pub verify_name : Hmac → Text → Option (List ℕ) → Option (List ℕ) → Bool
verify_name hmac secret_key none signature = false
verify_name hmac secret_key (some username) signature = verify hmac secret_key username signature

abbrev pub verify_parts : Hmac → Text → List Text → Bool
verify_parts hmac secret_key (name ∷ signature ∷ []) =
    verify_name hmac secret_key (decode name) (decode signature)
verify_parts hmac secret_key _ = false

unfoldable pub is_valid_auth_token : Hmac → Text → Text → Bool
unfolding split
is_valid_auth_token hmac token secret_key = verify_parts hmac secret_key (split b'|' token)
