-- ===== src/Text.antt =====
-- Texts, and what the program uses of Go's package strings and of JavaScript's String. A text is
-- the list of its code points.
pub mod Chars
pub mod Same
use Prim.Native.Char.{code}
use go_fire.Base.{
  ℕ, zero, suc, ◌-◌, length, Bool, true, false, ◌&&◌, ◌||◌, List, [], ◌∷◌, String, if◌then◌else◌,
  leb, ◌==◌, any,
}

abbrev pub Text : Type 0
Text = List ℕ

abbrev pub codes : String → Text
codes String.[] = []
codes (String.◌∷◌ c s) = code c ∷ codes s

-- Go's `==` on two texts.
abbrev pub same : Text → Text → Bool
same [] [] = true
same (c ∷ s) (d ∷ t) = c == d && same s t
same _ _ = false

-- `strings.Contains(s, sep)` for a separator of one character.
abbrev pub contains_char : ℕ → Text → Bool
contains_char sep = any (λ c. c == sep)

-- `strings.Split(s, sep)` for a separator of one character: what precedes the first separator,
-- and the parts behind it.
unfoldable pub split_from : ℕ → Text → Text × List Text
split_from sep [] = ([], [])
split_from sep (c ∷ s) =
    let (part, parts) = split_from sep s in
    if c == sep then ([], part ∷ parts) else (c ∷ part, parts)

unfoldable pub split : ℕ → Text → List Text
unfolding split_from
split sep s = let (part, parts) = split_from sep s in part ∷ parts

-- `unicode.IsSpace`.
unfoldable pub is_space : ℕ → Bool
is_space c =
    leb 9 c && leb c 13
    || c == 32
    || c == 0x85
    || c == 0xa0
    || c == 0x1680
    || leb 0x2000 c && leb c 0x200a
    || c == 0x2028
    || c == 0x2029
    || c == 0x202f
    || c == 0x205f
    || c == 0x3000

-- A field that has begun, put before the fields behind it.
abbrev close : Text → List Text → List Text
close [] fields = fields
close (c ∷ s) fields = (c ∷ s) ∷ fields

-- `strings.Fields(s)`: the first field of the text if it begins at its first character, and the
-- fields behind it.
unfoldable pub fields_from : Text → Text × List Text
unfolding is_space
fields_from [] = ([], [])
fields_from (c ∷ s) =
    let (part, parts) = fields_from s in
    if is_space c then ([], close part parts) else (c ∷ part, parts)

unfoldable pub fields : Text → List Text
unfolding fields_from
fields s = let (part, parts) = fields_from s in close part parts

-- `s.startsWith(p)`.
abbrev pub starts_with : Text → Text → Bool
starts_with [] s = true
starts_with (d ∷ p) [] = false
starts_with (d ∷ p) (c ∷ s) = c == d && starts_with p s

-- `s.split(sep)` for a separator that is not empty. The first argument counts the characters of a
-- separator that has been found and is still to be passed.
unfoldable pub split_str_from : ℕ → Text → Text → Text × List Text
split_str_from k sep [] = ([], [])
split_str_from (suc k) sep (c ∷ s) = split_str_from k sep s
split_str_from zero sep (c ∷ s) =
    let found = split_str_from (length sep - 1) sep s in
    let rest = split_str_from zero sep s in
    if starts_with sep (c ∷ s) then ([], found.0 ∷ found.1) else (c ∷ rest.0, rest.1)

unfoldable pub split_str : Text → Text → List Text
unfolding split_str_from
split_str sep s = let (part, parts) = split_str_from zero sep s in part ∷ parts
