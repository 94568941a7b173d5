-- ===== src/Web/Uri/Laws.antt =====
-- A text that QueryEscape has escaped is read back by the script.
use go_fire.Base.{
  ℕ, zero, suc, ◌+◌, ◌-◌, ◌*◌, ◌/◌, ◌%◌, ◌≤◌, ◌<◌, ◌≡◌, ◌≢◌, refl, sym, ap, subst, ◌∙◌, ◌⊎◌, true,
  List, [], ◌∷◌, ◌++◌, map, map-append, some, arith, inl, inr, All, Bool-cases, if◌then◌else◌, ltb,
  ◌==◌, append_assoc,
}
use go_fire.Text.{Text}
use go_fire.Web.Uri.{
  utf8, unreserved, escape_byte, escape_bytes, query_escape, Piece, char, byte, pieces, prepend,
  hex_upper, hex_value, Mode, between, inside, leading, first_byte, is_scalar, is_continuation,
  join, decode_uri_component, plus_to_space,
}

-- The piece that a byte becomes.
abbrev piece : ℕ → Piece
piece b = if unreserved b then char b else if b == b' ' then char b else byte b

hex-value-upper : (d : ℕ) → d < 16 → hex_value (plus_to_space (hex_upper d)) ≡ some d
hex-value-upper d h = ground arith

pieces-char : (c : ℕ) (s : Text) → (c ≢ b'%') → pieces (c ∷ s) ≡ prepend (char c) (pieces s)
unfolding pieces
pieces-char c [] ne = ground arith
pieces-char c (a ∷ []) ne = ground arith
pieces-char c (a ∷ b ∷ s) ne = ground arith

escaped :
    (b : ℕ) (s : Text)
    → b < 256
    → pieces (b'%' ∷ plus_to_space (hex_upper (b / 16)) ∷ plus_to_space (hex_upper (b % 16)) ∷ s)
      ≡ prepend (byte b) (pieces s)
unfolding pieces
escaped b s lt =
    let hi = hex-value-upper (b / 16) (omega arith) in
    let lo = hex-value-upper (b % 16) (omega arith) in
    let whole : b / 16 * 16 + b % 16 ≡ b = omega arith in rw (hi, lo, whole) refl

unreserved-plain : (b : ℕ) → unreserved b ≡ true → (plus_to_space b ≡ b) × (b ≢ b'%')
unreserved-plain b u = (ground arith, λ e. ground arith)

pieces-escape :
    (b : ℕ) (s : Text)
    → b < 256
    → pieces (map plus_to_space (escape_byte b) ++ s) ≡ prepend (piece b) (pieces s)
unfolding escape_byte
pieces-escape b s lt = elim (Bool-cases (unreserved b)) [
  | inl u ↦ let (plain, ne) = unreserved-plain b u in rw (u, plain) (pieces-char b s ne)
  | inr r ↦ rw r (elim (Bool-cases (b == b' ')) [
    | inl sp ↦ let e : b ≡ b' ' = ground arith in rw e (pieces-char b' ' s (λ k. cc))
    | inr ns ↦ rw ns (escaped b s lt)
  ])
]

-- Unicode's scalar values: the code points but the surrogates.
abbrev pub IsScalar : ℕ → Type 0
IsScalar c = (c < 0xd800) ⊎ ((0xe000 ≤ c) × (c ≤ 0x10ffff))

piece-high : (b : ℕ) → 0x80 ≤ b → piece b ≡ byte b
piece-high b h = ground arith

join-low :
    (c : ℕ) (ps : List Piece) → c < 0x80 → join between (piece c ∷ ps) ≡ prepend c (join between ps)
unfolding join
join-low c ps h = ground arith

first-two : (a : ℕ) → a < 32 → first_byte (0xc0 + a) ≡ leading (inside 0 a 0x80)
first-two a h = ground arith

first-three : (a : ℕ) → a < 16 → first_byte (0xe0 + a) ≡ leading (inside 1 a 0x800)
first-three a h = ground arith

first-four : (a : ℕ) → a < 8 → first_byte (0xf0 + a) ≡ leading (inside 2 a 0x10000)
first-four a h = ground arith

is_continuation-low : (b : ℕ) → b < 64 → is_continuation (0x80 + b) ≡ true
is_continuation-low b h = ground arith

is_scalar-true : (least c : ℕ) → least ≤ c → IsScalar c → is_scalar least c ≡ true
is_scalar-true least c le (inl low) = ground arith
is_scalar-true least c le (inr high) = ground arith

low-bits : (b : ℕ) → 0x80 + b - 0x80 ≡ b
low-bits b = omega arith

join-next :
    (k bits least b : ℕ) (ps : List Piece)
    → b < 64
    → join (inside (suc k) bits least) (byte (0x80 + b) ∷ ps)
      ≡ join (inside k (bits * 64 + b) least) ps
unfolding join
join-next k bits least b ps h = rw (is_continuation-low b h, low-bits b) refl

join-last :
    (bits least b : ℕ) (ps : List Piece)
    → b < 64
    → least ≤ bits * 64 + b
    → IsScalar (bits * 64 + b)
    → join (inside zero bits least) (byte (0x80 + b) ∷ ps)
      ≡ prepend (bits * 64 + b) (join between ps)
unfolding join
join-last bits least b ps h le ok' =
    rw (is_continuation-low b h, low-bits b, is_scalar-true least (bits * 64 + b) le ok') refl

join-leading :
    (b : ℕ) (m : Mode) (ps : List Piece)
    → first_byte b ≡ leading m
    → join between (byte b ∷ ps) ≡ join m ps
unfolding join
join-leading b m ps e = rw (e, join) refl

-- The last byte of a code point `c`, behind bits that stand for the rest of it.
join-end :
    (c bits least : ℕ) (ps : List Piece)
    → IsScalar c
    → least ≤ c
    → bits * 64 + c % 64 ≡ c
    → join (inside zero bits least) (byte (0x80 + c % 64) ∷ ps) ≡ prepend c (join between ps)
join-end c bits least ps ok' le e =
    join-last bits least (c % 64) ps (omega arith) (omega arith) (subst IsScalar (sym e) ok')
    ∙ ap (λ x. prepend x (join between ps)) e

join-two :
    (c : ℕ) (ps : List Piece)
    → IsScalar c
    → 0x80 ≤ c
    → c < 0x800
    → join between (piece (0xc0 + c / 64) ∷ piece (0x80 + c % 64) ∷ ps)
      ≡ prepend c (join between ps)
join-two c ps ok' lo hi =
    rw (piece-high (0xc0 + c / 64) (omega arith), piece-high (0x80 + c % 64) (omega arith))
      (join-leading _ _ _ (first-two (c / 64) (omega arith))
        ∙ join-end c (c / 64) 0x80 ps ok' lo (omega arith))

join-three :
    (c : ℕ) (ps : List Piece)
    → IsScalar c
    → 0x800 ≤ c
    → c < 0x10000
    → join between
        (piece (0xe0 + c / 4096) ∷ piece (0x80 + c / 64 % 64) ∷ piece (0x80 + c % 64) ∷ ps)
      ≡ prepend c (join between ps)
join-three c ps ok' lo hi =
    rw
      (
        piece-high (0xe0 + c / 4096) (omega arith),
        piece-high (0x80 + c / 64 % 64) (omega arith),
        piece-high (0x80 + c % 64) (omega arith),
      )
      (join-leading _ _ _ (first-three (c / 4096) (omega arith))
        ∙ join-next 0 (c / 4096) 0x800 (c / 64 % 64) _ (omega arith)
        ∙ join-end c (c / 4096 * 64 + c / 64 % 64) 0x800 ps ok' lo (omega arith))

join-four :
    (c : ℕ) (ps : List Piece)
    → IsScalar c
    → 0x10000 ≤ c
    → c < 0x110000
    → join between (
        piece (0xf0 + c / 262144)
        ∷ piece (0x80 + c / 4096 % 64)
        ∷ piece (0x80 + c / 64 % 64)
        ∷ piece (0x80 + c % 64)
        ∷ ps)
      ≡ prepend c (join between ps)
join-four c ps ok' lo hi =
    rw
      (
        piece-high (0xf0 + c / 262144) (omega arith),
        piece-high (0x80 + c / 4096 % 64) (omega arith),
        piece-high (0x80 + c / 64 % 64) (omega arith),
        piece-high (0x80 + c % 64) (omega arith),
      )
      (join-leading _ _ _ (first-four (c / 262144) (omega arith))
        ∙ join-next 1 (c / 262144) 0x10000 (c / 4096 % 64) _ (omega arith)
        ∙ join-next 0 (c / 262144 * 64 + c / 4096 % 64) 0x10000 (c / 64 % 64) _ (omega arith)
        ∙ join-end c ((c / 262144 * 64 + c / 4096 % 64) * 64 + c / 64 % 64) 0x10000 ps ok' lo
            (omega arith))

IsScalar-lt : (c : ℕ) → IsScalar c → c < 0x110000
IsScalar-lt c (inl low) = omega arith
IsScalar-lt c (inr high) = omega arith

-- The bytes of a code point are read back as it.
join-utf8 :
    (c : ℕ) (ps : List Piece)
    → IsScalar c
    → join between (map piece (utf8 c) ++ ps) ≡ prepend c (join between ps)
unfolding utf8
join-utf8 c ps ok' = elim (Bool-cases (ltb c 0x80)) [
  | inl h ↦ rw h (join-low c ps (ground arith))
  | inr h1 ↦ rw h1 (elim (Bool-cases (ltb c 0x800)) [
    | inl h ↦ rw h (join-two c ps ok' (ground arith) (ground arith))
    | inr h2 ↦ rw h2 (elim (Bool-cases (ltb c 0x10000)) [
      | inl h ↦ rw h (join-three c ps ok' (ground arith) (ground arith))
      | inr h3 ↦ rw h3 (join-four c ps ok' (ground arith) (IsScalar-lt c ok'))
    ])
  ])
]

pub utf8-bytes : (c : ℕ) → IsScalar c → All (λ b. b < 256) (utf8 c)
unfolding utf8
utf8-bytes c ok' = let lt = IsScalar-lt c ok' in ground arith

-- The pieces of an escaped text.
text_pieces : Text → List Piece
text_pieces [] = []
text_pieces (c ∷ s) = map piece (utf8 c) ++ text_pieces s

pieces-bytes :
    (bs : List ℕ) (s : Text) {ps : List Piece}
    → All (λ b. b < 256) bs
    → pieces s ≡ some ps
    → pieces (map plus_to_space (escape_bytes bs) ++ s) ≡ some (map piece bs ++ ps)
unfolding escape_bytes
pieces-bytes [] s h e = e
pieces-bytes (b ∷ bs) s h e =
    rw (map-append, append_assoc)
      (pieces-escape b (map plus_to_space (escape_bytes bs) ++ s) h.0
        ∙ ap (prepend (piece b)) (pieces-bytes bs s h.1 e))

pieces-query_escape :
    (s : Text) → All IsScalar s → pieces (map plus_to_space (query_escape s)) ≡ some (text_pieces s)
unfolding query_escape text_pieces pieces
pieces-query_escape [] h = refl
pieces-query_escape (c ∷ s) h =
    rw map-append (pieces-bytes (utf8 c) _ (utf8-bytes c h.0) (pieces-query_escape s h.1))

join-text : (s : Text) → All IsScalar s → join between (text_pieces s) ≡ some s
unfolding text_pieces join
join-text [] h = refl
join-text (c ∷ s) h = join-utf8 c (text_pieces s) h.0 ∙ ap (prepend c) (join-text s h.1)

-- What QueryEscape makes of a text of Unicode, the script reads back, once it has turned `+` into a
-- space.
pub decode-query_escape :
    (s : Text) → All IsScalar s → decode_uri_component (map plus_to_space (query_escape s)) ≡ some s
unfolding decode_uri_component
decode-query_escape s h = rw (pieces-query_escape s h) (join-text s h)
