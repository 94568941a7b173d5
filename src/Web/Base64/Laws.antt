-- ===== src/Web/Base64/Laws.antt =====
-- DecodeString reads back what EncodeToString writes.
use go_fire.Base.{
  ℕ, ◌+◌, ◌*◌, ◌/◌, ◌%◌, ◌<◌, ◌≤◌, ◌≡◌, refl, ap, ◌∙◌, not, ◌||◌, List, [], ◌∷◌, some, arith, All,
  select, ◌==◌,
}
use go_fire.Text.{Text}
use go_fire.Web.Base64.{char_of, value_of, encode, quad, decode_quads, decode}

value_of-char_of : (v : ℕ) → v < 64 → value_of (char_of v) ≡ some v
value_of-char_of v h = ground arith

-- The alphabet: letters, digits, `+`, `/` and `=`.
abbrev pub IsPlain : ℕ → Type 0
IsPlain c = (43 ≤ c) × (c ≤ 122)

char_of-IsPlain : (v : ℕ) → v < 64 → IsPlain (char_of v)
char_of-IsPlain v h = ground arith

pub encode-IsPlain : (s : List ℕ) → All (λ b. b < 256) s → All IsPlain (encode s)
unfolding encode
encode-IsPlain [] h = tt
encode-IsPlain (a ∷ []) h = (
  char_of-IsPlain (a / 4) (omega arith),
  (
    char_of-IsPlain (a % 4 * 16) (omega arith),
    ((omega arith, omega arith), ((omega arith, omega arith), tt)),
  ),
)
encode-IsPlain (a ∷ b ∷ []) h = (
  char_of-IsPlain (a / 4) (omega arith),
  (
    char_of-IsPlain (a % 4 * 16 + b / 16) (omega arith),
    (char_of-IsPlain (b % 16 * 4) (omega arith), ((omega arith, omega arith), tt)),
  ),
)
encode-IsPlain (a ∷ b ∷ c ∷ s) h = (
  char_of-IsPlain (a / 4) (omega arith),
  (
    char_of-IsPlain (a % 4 * 16 + b / 16) (omega arith),
    (
      char_of-IsPlain (b % 16 * 4 + c / 64) (omega arith),
      (char_of-IsPlain (c % 64) (omega arith), encode-IsPlain s h.1.1.1),
    ),
  ),
)

decode_quads-quad :
    (a b c d : ℕ) (rest : Text) {p q r s : ℕ}
    → value_of a ≡ some p
    → value_of b ≡ some q
    → value_of c ≡ some r
    → value_of d ≡ some s
    → decode_quads (a ∷ b ∷ c ∷ d ∷ rest)
      ≡ quad (some p) (some q) (some r) (some s) (decode_quads rest)
unfolding decode_quads
decode_quads-quad a b c d [] ea eb ec ed = rw (ea, eb, ec, ed) refl
decode_quads-quad a b c d (e ∷ rest) ea eb ec ed = rw (ea, eb, ec, ed) refl

decode_quads-encode : (s : List ℕ) → All (λ b. b < 256) s → decode_quads (encode s) ≡ some s
unfolding encode decode_quads
decode_quads-encode [] h = refl
decode_quads-encode (a ∷ []) h =
    let v = value_of-char_of (a / 4) (omega arith) in
    let w = value_of-char_of (a % 4 * 16) (omega arith) in
    let e : a / 4 * 4 + a % 4 * 16 / 16 ≡ a = omega arith in rw (v, w, e) refl
decode_quads-encode (a ∷ b ∷ []) h =
    let v = value_of-char_of (a / 4) (omega arith) in
    let w = value_of-char_of (a % 4 * 16 + b / 16) (omega arith) in
    let x = value_of-char_of (b % 16 * 4) (omega arith) in
    let e : a / 4 * 4 + (a % 4 * 16 + b / 16) / 16 ≡ a = omega arith in
    let e' : (a % 4 * 16 + b / 16) % 16 * 16 + b % 16 * 4 / 4 ≡ b = omega arith in
    rw (v, w, x, e, e') refl
decode_quads-encode (a ∷ b ∷ c ∷ s) h =
    let e : a / 4 * 4 + (a % 4 * 16 + b / 16) / 16 ≡ a = omega arith in
    let e' : (a % 4 * 16 + b / 16) % 16 * 16 + (b % 16 * 4 + c / 64) / 4 ≡ b = omega arith in
    let e'' : (b % 16 * 4 + c / 64) % 4 * 64 + c % 64 ≡ c = omega arith in
    decode_quads-quad (char_of (a / 4)) (char_of (a % 4 * 16 + b / 16))
      (char_of (b % 16 * 4 + c / 64)) (char_of (c % 64)) (encode s)
      (value_of-char_of (a / 4) (omega arith))
      (value_of-char_of (a % 4 * 16 + b / 16) (omega arith))
      (value_of-char_of (b % 16 * 4 + c / 64) (omega arith))
      (value_of-char_of (c % 64) (omega arith))
    ∙ rw (decode_quads-encode s h.1.1.1, e, e', e'') refl

select-plain : (s : Text) → All IsPlain s → select (λ c. not (c == 10 || c == 13)) s ≡ s
select-plain [] h = refl
select-plain (c ∷ s) h = ground (arith, h.0, select-plain s h.1)

-- DecodeString reads back the bytes that EncodeToString has written.
pub decode-encode : (s : List ℕ) → All (λ b. b < 256) s → decode (encode s) ≡ some s
unfolding decode
decode-encode s h =
    ap decode_quads (select-plain (encode s) (encode-IsPlain s h)) ∙ decode_quads-encode s h
