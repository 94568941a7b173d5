-- ===== src/Web/Base64.antt =====
-- base64.StdEncoding (web/auth_cookie_validator.go uses EncodeToString and DecodeString of it), on
-- bytes.
pub mod Laws
use go_fire.Base.{
  ℕ, ◌+◌, ◌-◌, ◌*◌, ◌/◌, ◌%◌, Bool, not, ◌&&◌, ◌||◌, List, [], ◌∷◌, Option, none, some,
  if◌then◌else◌, ltb, leb, ◌==◌, select,
}
use go_fire.Text.{Text}

-- The character of six bits.
abbrev pub char_of : ℕ → ℕ
char_of v =
    if ltb v 26
    then b'A' + v
    else if ltb v 52
    then b'a' + (v - 26)
    else if ltb v 62
    then b'0' + (v - 52)
    else if v == 62
    then b'+'
    else b'/'

abbrev pub value_of : ℕ → Option ℕ
value_of c =
    if leb b'A' c && leb c b'Z'
    then some (c - b'A')
    else if leb b'a' c && leb c b'z'
    then some (c - b'a' + 26)
    else if leb b'0' c && leb c b'9'
    then some (c - b'0' + 52)
    else if c == b'+'
    then some 62
    else if c == b'/'
    then some 63
    else none

unfoldable pub encode : List ℕ → Text
encode [] = []
encode (a ∷ []) = char_of (a / 4) ∷ char_of (a % 4 * 16) ∷ b'=' ∷ b'=' ∷ []
encode (a ∷ b ∷ []) =
    char_of (a / 4) ∷ char_of (a % 4 * 16 + b / 16) ∷ char_of (b % 16 * 4) ∷ b'=' ∷ []
encode (a ∷ b ∷ c ∷ s) =
    char_of (a / 4)
    ∷ char_of (a % 4 * 16 + b / 16)
    ∷ char_of (b % 16 * 4 + c / 64)
    ∷ char_of (c % 64)
    ∷ encode s

-- The bytes of the last four characters, for their values; two or one of them may be padding.
abbrev pub last_quad : Option ℕ → Option ℕ → Option ℕ → Option ℕ → Bool → Bool → Option (List ℕ)
last_quad (some p) (some q) (some r) (some s) _ _ =
    some ((p * 4 + q / 16) ∷ (q % 16 * 16 + r / 4) ∷ (r % 4 * 64 + s) ∷ [])
last_quad (some p) (some q) (some r) none _ pad =
    if pad then some ((p * 4 + q / 16) ∷ (q % 16 * 16 + r / 4) ∷ []) else none
last_quad (some p) (some q) none none pad pad' =
    if pad && pad' then some ((p * 4 + q / 16) ∷ []) else none
last_quad (some p) (some q) none (some s) _ _ = none
last_quad (some p) none _ _ _ _ = none
last_quad none _ _ _ _ _ = none

abbrev pub quad : Option ℕ → Option ℕ → Option ℕ → Option ℕ → Option (List ℕ) → Option (List ℕ)
quad (some p) (some q) (some r) (some s) (some rest) =
    some ((p * 4 + q / 16) ∷ (q % 16 * 16 + r / 4) ∷ (r % 4 * 64 + s) ∷ rest)
quad (some p) (some q) (some r) (some s) none = none
quad (some p) (some q) (some r) none rest = none
quad (some p) (some q) none s rest = none
quad (some p) none r s rest = none
quad none q r s rest = none

unfoldable pub decode_quads : Text → Option (List ℕ)
decode_quads [] = some []
decode_quads (a ∷ []) = none
decode_quads (a ∷ b ∷ []) = none
decode_quads (a ∷ b ∷ c ∷ []) = none
decode_quads (a ∷ b ∷ c ∷ d ∷ []) =
    last_quad (value_of a) (value_of b) (value_of c) (value_of d) (c == b'=') (d == b'=')
decode_quads (a ∷ b ∷ c ∷ d ∷ e ∷ s) =
    quad (value_of a) (value_of b) (value_of c) (value_of d) (decode_quads (e ∷ s))

-- The characters LF and CR are passed over. None where DecodeString returns an error.
unfoldable pub decode : Text → Option (List ℕ)
unfolding decode_quads
decode s = decode_quads (select (λ c. not (c == 10 || c == 13)) s)
