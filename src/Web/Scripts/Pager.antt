-- ===== src/Web/Scripts/Pager.antt =====
-- The address that goToPage loads (web/static/assets/js/scripts.js): URLSearchParams and the decimal
-- text of a number, as JavaScript has them.
pub mod Laws
use go_fire.Base.{
  ℕ, zero, suc, ◌+◌, ◌/◌, ◌%◌, Bool, not, List, [], ◌∷◌, Option, none, some, if◌then◌else◌, ltb,
  select,
}
use go_fire.Text.{Text, codes, same}
use go_fire.Web.Scripts.{go_to_page}

-- The decimal digits of a number in front of a text, with fuel for the digits.
unfoldable pub decimal_onto : ℕ → ℕ → Text → Text
decimal_onto zero n rest = rest
decimal_onto (suc fuel) n rest =
    let longer = decimal_onto fuel (n / 10) ((b'0' + n % 10) ∷ rest) in
    if ltb n 10 then (b'0' + n) ∷ rest else longer

-- `String(n)`, for a number up to 2^53: a larger one may be no double, and from 10^21 on its text has an
-- exponent. A number has fewer digits than it is large, but 0.
unfoldable pub decimal : ℕ → Text
unfolding decimal_onto
decimal n = decimal_onto (suc n) n []

-- The parameters of an address, decoded, in their order.
abbrev pub SearchParams : Type 0
SearchParams = List (Text × Text)

unfoldable pub get : Text → SearchParams → Option Text
get name [] = none
get name ((key, value) ∷ params) = if same key name then some value else get name params

-- `set` changes the first parameter of the name and removes the others, or adds one.
unfoldable pub set : Text → Text → SearchParams → SearchParams
set name value [] = (name, value) ∷ []
set name value ((key, old) ∷ params) =
    if same key name
    then (name, value) ∷ select (λ p. not (same p.0 name)) params
    else (key, old) ∷ set name value params

-- goToPage: the parameters of the address that it loads; none where it returns early.
unfoldable pub load_page : Text → SearchParams → Option SearchParams
unfolding get set decimal
load_page action params = elim (go_to_page (get (codes "page") params) action) [
  | none ↦ none
  | some page ↦ some (set (codes "page") (decimal page) params)
]
