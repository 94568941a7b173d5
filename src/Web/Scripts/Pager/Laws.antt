-- ===== src/Web/Scripts/Pager/Laws.antt =====
-- The pager and the address: what goToPage writes it reads back.
use go_fire.Base.{
  ℕ, zero, suc, ◌+◌, ◌/◌, ◌%◌, ◌≤◌, ◌<◌, ◌≡◌, refl, ap, ◌∙◌, not, false, [], ◌∷◌, none, some, arith,
  Option-cases, Bool-cases, inl, inr, ltb, ◌==◌, select, ◌⊎◌,
}
use go_fire.Text.Same.{same_refl, same-eq}
use go_fire.Text.{Text, codes, same, is_space}
use go_fire.Web.Scripts.{nan, whole, leading_digits, skip_spaces, parse_int, go_to_page}
use go_fire.Web.Scripts.Laws.{go_to_page_lem}
use go_fire.Web.Scripts.Pager.{decimal_onto, decimal, SearchParams, get, set, load_page}

leading_digits-decimal :
    (fuel n : ℕ) (rest : Text)
    → n < fuel
    → leading_digits none (decimal_onto fuel n rest) ≡ leading_digits (some n) rest
unfolding leading_digits decimal_onto
leading_digits-decimal zero n rest h = absurd (omega arith)
leading_digits-decimal (suc fuel) n rest h = elim (Bool-cases (ltb n 10)) [
  | inl small ↦ rw small (ground arith)
  | inr large ↦
      rw large (
        leading_digits-decimal fuel (n / 10) ((b'0' + n % 10) ∷ rest) (ground arith) ∙ ground arith)
]

-- A text that begins with a digit.
abbrev pub IsNumeral : Text → Type 0
IsNumeral s = (c : ℕ) × (t : Text) × (s ≡ c ∷ t) × (b'0' ≤ c) × (c ≤ b'9')

pub IsNumeral-decimal :
    (fuel n : ℕ) (rest : Text) → (n < fuel) ⊎ IsNumeral rest → IsNumeral (decimal_onto fuel n rest)
unfolding decimal_onto
IsNumeral-decimal zero n rest (inl lt) = absurd (omega arith)
IsNumeral-decimal zero n rest (inr k) = k
IsNumeral-decimal (suc fuel) n rest k = elim (Bool-cases (ltb n 10)) [
  | inl small ↦ rw small (b'0' + n, rest, refl, omega arith, ground arith)
  | inr large ↦ rw large (
      IsNumeral-decimal fuel (n / 10) ((b'0' + n % 10) ∷ rest)
        (inr (b'0' + n % 10, rest, refl, omega arith, omega arith)))
]

parse_int-numeral :
    (s : Text) {n : ℕ} → IsNumeral s → leading_digits none s ≡ some n → parse_int (some s) ≡ whole n
unfolding parse_int skip_spaces is_space
parse_int-numeral s {n} (c, t, e, lo, hi) h =
    let space : is_space c ≡ false = ground arith in
    let minus : (c == b'-') ≡ false = ground arith in
    let plus : (c == b'+') ≡ false = ground arith in
    let h' : leading_digits none (c ∷ t) ≡ some n = rw e at h in rw (e, space, minus, plus, h') refl

-- parseInt reads the decimal text of a number back.
pub parse_int-decimal : (n : ℕ) → parse_int (some (decimal n)) ≡ whole n
unfolding decimal leading_digits
parse_int-decimal n =
    parse_int-numeral (decimal_onto (suc n) n [])
      (IsNumeral-decimal (suc n) n [] (inl (omega arith)))
      (leading_digits-decimal (suc n) n [] (omega arith) ∙ refl)

get-select :
    (name m : Text) (params : SearchParams)
    → same name m ≡ false
    → get m (select (λ p. not (same p.0 name)) params) ≡ get m params
unfolding get
get-select name m [] ne = refl
get-select name m ((key, value) ∷ params) ne = elim (Bool-cases (same key name)) [
  | inl own ↦
      let skip = ap (λ k. same k m) (same-eq key name own) ∙ ne in
      rw (own, skip) (get-select name m params ne)
  | inr other ↦ rw other (elim (Bool-cases (same key m)) [
    | inl hit ↦ rw hit refl
    | inr miss ↦ rw miss (get-select name m params ne)
  ])
]

-- `set` writes the parameter of the name, and no other.
pub get-set :
    (name value : Text) (params : SearchParams) → get name (set name value params) ≡ some value
unfolding get set
get-set name value [] = rw (same_refl name) refl
get-set name value ((key, old) ∷ params) = elim (Bool-cases (same key name)) [
  | inl own ↦ rw (own, same_refl name) refl
  | inr other ↦ rw (other, other) (get-set name value params)
]

get-set_of_ne :
    (name m value : Text) (params : SearchParams)
    → same name m ≡ false
    → get m (set name value params) ≡ get m params
unfolding get set
get-set_of_ne name m value [] ne = rw ne refl
get-set_of_ne name m value ((key, old) ∷ params) ne = elim (Bool-cases (same key name)) [
  | inl own ↦
      let skip = ap (λ k. same k m) (same-eq key name own) ∙ ne in
      rw (own, skip, ne) (get-select name m params ne)
  | inr other ↦ rw other (elim (Bool-cases (same key m)) [
    | inl hit ↦ rw hit refl
    | inr miss ↦ rw miss (get-set_of_ne name m value params ne)
  ])
]

-- The address shows the page: a parameter that is missing, not a number or 0 counts as page 1.
abbrev pub IsOnPage : ℕ → SearchParams → Type 0
IsOnPage p params =
    (parse_int (get (codes "page") params) ≡ whole (suc p))
    ⊎ ((p ≡ 0)
        × ((parse_int (get (codes "page") params) ≡ nan)
            ⊎ (parse_int (get (codes "page") params) ≡ whole 0)))

-- All parameters but `page` are the same.
abbrev pub KeepsOthers : SearchParams → SearchParams → Type 0
KeepsOthers params params' =
    (m : Text) → same (codes "page") m ≡ false → get m params' ≡ get m params

load_page-to :
    (action : Text) (params : SearchParams) (q : ℕ)
    → go_to_page (get (codes "page") params) action ≡ some (suc q)
    → (params' : SearchParams) × (load_page action params ≡ some params')
      × IsOnPage q params'
      × KeepsOthers params params'
unfolding load_page
load_page-to action params q e = (
  set (codes "page") (decimal (suc q)) params,
  rw (e, load_page) refl,
  inl (ap parse_int (get-set (codes "page") (decimal (suc q)) params) ∙ parse_int-decimal (suc q)),
  λ m ne. get-set_of_ne (codes "page") m (decimal (suc q)) params ne,
)

-- From any page of any address, goToPage("next") loads an address on the page behind it; there
-- goToPage of another action loads the page before again; both keep every other parameter.
pub load_page_back :
    (action : Text) (p : ℕ) (params : SearchParams)
    → same action (codes "next") ≡ false
    → IsOnPage p params
    → (ahead : SearchParams) × (load_page (codes "next") params ≡ some ahead)
      × IsOnPage (suc p) ahead
      × KeepsOthers params ahead
      × ((back : SearchParams) × (load_page action ahead ≡ some back)
          × IsOnPage p back
          × KeepsOthers params back)
load_page_back action p params other on =
    let next =
      (go_to_page_lem (get (codes "page") params) (codes "next") p (suc (suc p)) on).1
        (inl (refl, omega arith)) in
    let (ahead, moved, on', kept) = load_page-to (codes "next") params (suc p) next in
    let prev =
      (go_to_page_lem (get (codes "page") ahead) action (suc p) (suc p) on').1
        (inr (other, omega arith, omega arith)) in
    let (back, returned, on'', kept') = load_page-to action ahead p prev in
    (ahead, moved, on', kept, (back, returned, on'', λ m ne. kept' m ne ∙ kept m ne))

-- On the first page another action loads nothing.
pub load_page_first :
    (action : Text) (params : SearchParams)
    → same action (codes "next") ≡ false
    → IsOnPage 0 params
    → load_page action params ≡ none
unfolding load_page
load_page_first action params other on =
    elim (Option-cases (go_to_page (get (codes "page") params) action)) [
      | inl stays ↦ rw (stays, load_page) refl
      | inr (q, moves) ↦ absurd (
          ground (arith, other, (go_to_page_lem (get (codes "page") params) action 0 q on).0 moves))
    ]
