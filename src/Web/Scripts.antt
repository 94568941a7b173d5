-- ===== src/Web/Scripts.antt =====
-- The dashboard's own script (web/static/assets/js/scripts.js): the page's title and the pager. The
-- confirmation dialogs are in Confirm, the messages that the server leaves in cookies in Messages.
pub mod Laws
pub mod Pager
pub mod Confirm
pub mod Messages
pub mod Charts
use go_fire.Base.{
  ℕ, zero, suc, ◌+◌, ◌-◌, ◌*◌, Bool, true, false, not, ◌&&◌, ◌||◌, List, [], ◌∷◌, ◌++◌, map, Option,
  none, some, if◌then◌else◌, ltb, leb, ◌==◌, length, select,
}
use go_fire.Text.{Text, codes, same, split, is_space}
use go_fire.Web.Uri.{decode_uri_component}

-- `x || y` for texts: the empty text is false.
abbrev pub or_text : Text → Text → Text
or_text [] y = y
or_text (c ∷ s) y = c ∷ s

abbrev non_empty : Text → Bool
non_empty [] = false
non_empty (c ∷ s) = true

abbrev last : List Text → Text
last [] = []
last (p ∷ []) = p
last (p ∷ q ∷ ps) = last (q ∷ ps)

-- The text that becomes the title, before decodeURIComponent: the last part of the path that is not
-- empty, or "Home".
unfoldable pub title_part : Text → Text
title_part pathname = or_text (last (select non_empty (split b'/' pathname))) (codes "Home")

-- `document.title = decodeURIComponent(lastPart)`; none where decodeURIComponent throws, and the title
-- stays.
unfoldable pub title : Text → Option Text
unfolding title_part
title pathname = decode_uri_component (title_part pathname)

-- What parseInt returns: not a number, `n`, or `-(n + 1)`.
pub data Number : Type 0 where
  nan : Number
  whole : ℕ → Number
  negative : ℕ → Number

abbrev is_digit : ℕ → Bool
is_digit c = leb b'0' c && leb c b'9'

-- The number of the digits at the start of a text, none if there is no digit.
unfoldable pub leading_digits : Option ℕ → Text → Option ℕ
leading_digits acc [] = acc
leading_digits none (c ∷ s) = if is_digit c then leading_digits (some (c - b'0')) s else none
leading_digits (some n) (c ∷ s) =
    if is_digit c then leading_digits (some (n * 10 + (c - b'0'))) s else some n

unfoldable pub skip_spaces : Text → Text
skip_spaces [] = []
skip_spaces (c ∷ s) = if is_space c then skip_spaces s else c ∷ s

abbrev to_number : Option ℕ → Number
to_number none = nan
to_number (some n) = whole n

abbrev to_negative : Option ℕ → Number
to_negative none = nan
to_negative (some zero) = whole 0
to_negative (some (suc n)) = negative n

signed : Text → Number
unfolding leading_digits
signed [] = nan
signed (c ∷ s) =
    if c == b'-'
    then to_negative (leading_digits none s)
    else if c == b'+'
    then to_number (leading_digits none s)
    else to_number (leading_digits none (c ∷ s))

-- `parseInt(text)`, for numbers up to 2^53, which a double holds exactly; the arithmetic below is meant
-- for these too. A missing parameter is not a number.
unfoldable pub parse_int : Option Text → Number
unfolding signed skip_spaces
parse_int none = nan
parse_int (some s) = signed (skip_spaces s)

-- `parseInt(…) || 1`.
abbrev or_one : Number → Number
or_one nan = whole 1
or_one (whole zero) = whole 1
or_one (whole (suc n)) = whole (suc n)
or_one (negative n) = negative n

abbrev increment : Number → Number
increment nan = nan
increment (whole n) = whole (suc n)
increment (negative zero) = whole 0
increment (negative (suc n)) = negative n

abbrev decrement : Number → Number
decrement nan = nan
decrement (whole zero) = negative 0
decrement (whole (suc n)) = whole n
decrement (negative n) = negative (suc n)

-- `if (page < 1 || isNaN(page)) return`.
abbrev pub at_least_one : Number → Option ℕ
at_least_one nan = none
at_least_one (whole zero) = none
at_least_one (whole (suc n)) = some (suc n)
at_least_one (negative n) = none

-- The page that goToPage loads, from the parameter `page` of the address; none if it stays.
unfoldable pub go_to_page : Option Text → Text → Option ℕ
unfolding parse_int
go_to_page param action =
    let page = or_one (parse_int param) in
    at_least_one (if same action (codes "next") then increment page else decrement page)
