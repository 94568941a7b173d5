-- ===== src/Web/Uri.antt =====
-- What the dashboard uses of URI encodings: Go's url.QueryEscape (web/route_handler.go), and
-- decodeURIComponent and the `+` of getCookie (web/static/assets/js/scripts.js). A text is the list
-- of its code points, and QueryEscape reads its bytes in UTF-8.
pub mod Laws
use go_fire.Base.{
  ℕ, zero, suc, ◌+◌, ◌-◌, ◌*◌, ◌/◌, ◌%◌, Bool, true, false, ◌&&◌, ◌||◌, List, [], ◌∷◌, ◌++◌, Option,
  none, some, if◌then◌else◌, ltb, leb, ◌==◌, any,
}
use go_fire.Text.{Text}

-- The UTF-8 bytes of a code point.
unfoldable pub utf8 : ℕ → List ℕ
utf8 c =
    if ltb c 0x80
    then c ∷ []
    else if ltb c 0x800
    then (0xc0 + c / 64) ∷ (0x80 + c % 64) ∷ []
    else if ltb c 0x10000
    then (0xe0 + c / 4096) ∷ (0x80 + c / 64 % 64) ∷ (0x80 + c % 64) ∷ []
    else (0xf0 + c / 262144) ∷ (0x80 + c / 4096 % 64) ∷ (0x80 + c / 64 % 64) ∷ (0x80 + c % 64) ∷ []

abbrev within : ℕ → ℕ → ℕ → Bool
within lo hi c = leb lo c && leb c hi

-- The characters that QueryEscape leaves as they are.
abbrev pub unreserved : ℕ → Bool
unreserved c =
    within b'a' b'z' c
    || within b'A' b'Z' c
    || within b'0' b'9' c
    || (c == b'-' || c == b'_' || c == b'.' || c == b'~')

abbrev pub hex_upper : ℕ → ℕ
hex_upper d = if ltb d 10 then b'0' + d else b'A' + (d - 10)

unfoldable pub escape_byte : ℕ → Text
escape_byte b =
    if unreserved b
    then b ∷ []
    else if b == b' '
    then b'+' ∷ []
    else b'%' ∷ hex_upper (b / 16) ∷ hex_upper (b % 16) ∷ []

unfoldable pub escape_bytes : List ℕ → Text
unfolding escape_byte
escape_bytes [] = []
escape_bytes (b ∷ bs) = escape_byte b ++ escape_bytes bs

unfoldable pub query_escape : Text → Text
unfolding escape_bytes utf8
query_escape [] = []
query_escape (c ∷ s) = escape_bytes (utf8 c) ++ query_escape s

-- A character of the text, or an escaped byte.
pub data Piece : Type 0 where
  char : ℕ → Piece
  byte : ℕ → Piece

abbrev pub hex_value : ℕ → Option ℕ
hex_value c =
    if within b'0' b'9' c
    then some (c - b'0')
    else if within b'A' b'F' c
    then some (c - b'A' + 10)
    else if within b'a' b'f' c
    then some (c - b'a' + 10)
    else none

abbrev pub hex_pair : Option ℕ → Option ℕ → Option ℕ
hex_pair (some a) (some b) = some (a * 16 + b)
hex_pair (some a) none = none
hex_pair none b = none

abbrev pub prepend {ℓ} : {A : Type ℓ} → A → Option (List A) → Option (List A)
prepend x none = none
prepend x (some xs) = some (x ∷ xs)

abbrev pub prepend_byte : Option ℕ → Option (List Piece) → Option (List Piece)
prepend_byte none rest = none
prepend_byte (some b) rest = prepend (byte b) rest

-- None where a `%` is not followed by two hexadecimal digits.
unfoldable pub pieces : Text → Option (List Piece)
pieces [] = some []
pieces (c ∷ []) = if c == b'%' then none else some (char c ∷ [])
pieces (c ∷ a ∷ []) = if c == b'%' then none else prepend (char c) (pieces (a ∷ []))
pieces (c ∷ a ∷ b ∷ s) = elim (c == b'%') [
  | true ↦ prepend_byte (hex_pair (hex_value a) (hex_value b)) (pieces s)
  | false ↦ prepend (char c) (pieces (a ∷ b ∷ s))
]

-- Between two code points, or within the bytes of one: the bytes that are to come behind the next,
-- the bits so far, and the least code point for the length of the sequence.
pub data Mode : Type 0 where
  between : Mode
  inside : ℕ → ℕ → ℕ → Mode

pub data First : Type 0 where
  ascii : First
  leading : Mode → First
  malformed : First

abbrev pub first_byte : ℕ → First
first_byte b =
    if ltb b 0x80
    then ascii
    else if within 0xc0 0xdf b
    then leading (inside 0 (b - 0xc0) 0x80)
    else if within 0xe0 0xef b
    then leading (inside 1 (b - 0xe0) 0x800)
    else if within 0xf0 0xf7 b
    then leading (inside 2 (b - 0xf0) 0x10000)
    else malformed

-- A code point that is no surrogate, of at least `least`: a smaller one would be overlong.
abbrev pub is_scalar : ℕ → ℕ → Bool
is_scalar least c = leb least c && (ltb c 0xd800 || within 0xe000 0x10ffff c)

abbrev pub is_continuation : ℕ → Bool
is_continuation b = within 0x80 0xbf b

-- The code points of the pieces; none where the bytes are no UTF-8.
unfoldable pub join : Mode → List Piece → Option Text
join between [] = some []
join (inside k bits least) [] = none
join between (char c ∷ ps) = prepend c (join between ps)
join (inside k bits least) (char c ∷ ps) = none
join between (byte b ∷ ps) = elim (first_byte b) [
  | ascii ↦ prepend b (join between ps)
  | leading m ↦ join m ps
  | malformed ↦ none
]
join (inside zero bits least) (byte b ∷ ps) =
    let c = bits * 64 + (b - 0x80) in
    let rest = prepend c (join between ps) in
    if is_continuation b && is_scalar least c then rest else none
join (inside (suc k) bits least) (byte b ∷ ps) =
    let rest = join (inside k (bits * 64 + (b - 0x80)) least) ps in
    if is_continuation b then rest else none

abbrev pub join_all : Option (List Piece) → Option Text
join_all none = none
join_all (some ps) = join between ps

-- `decodeURIComponent(s)`; none where it throws.
unfoldable pub decode_uri_component : Text → Option Text
unfolding pieces join
decode_uri_component s = join_all (pieces s)

abbrev pub plus_to_space : ℕ → ℕ
plus_to_space c = if c == b'+' then b' ' else c
