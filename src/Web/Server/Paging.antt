-- ===== src/Web/Server/Paging.antt =====
-- The page number that the server reads, and the one that the script has written.
use go_fire.Base.{
  ℕ, zero, suc, ◌+◌, ◌-◌, ◌*◌, ◌/◌, ◌%◌, ◌≤◌, ◌<◌, ◌≡◌, ◌∙◌, inl, inr, false, [], ◌∷◌, Option, none,
  some, arith, Bool-cases, ltb, ◌==◌,
}
use go_fire.Text.{Text, codes, same}
use go_fire.Cron.Int.{atoi, digits, digits_from}
use go_fire.Web.Scripts.{Number, nan, whole, negative, at_least_one, go_to_page}
use go_fire.Web.Scripts.Pager.{SearchParams, get, set, load_page, decimal, decimal_onto}
use go_fire.Web.Scripts.Pager.Laws.{IsNumeral, IsNumeral-decimal, get-set}
use go_fire.Web.Http.{Request, value, get_page_number, page_or_one}

digits_from-decimal :
    (fuel n : ℕ) (rest : Text)
    → n < fuel
    → digits_from 0 (decimal_onto fuel n rest) ≡ digits_from n rest
unfolding digits_from decimal_onto
digits_from-decimal zero n rest h = absurd (omega arith)
digits_from-decimal (suc fuel) n rest h = elim (Bool-cases (ltb n 10)) [
  | inl small ↦ rw small (ground arith)
  | inr large ↦
      let lt : n / 10 < fuel = ground arith in
      let whole' : n / 10 * 10 + (b'0' + n % 10 - b'0') ≡ n = omega arith in
      rw large
        (digits_from-decimal fuel (n / 10) ((b'0' + n % 10) ∷ rest) lt ∙ ground (arith, whole'))
]

atoi-numeral :
    (s : Text) (n : ℕ)
    → IsNumeral s
    → digits_from 0 s ≡ some n
    → n < 9223372036854775808
    → atoi s ≡ some n
unfolding atoi digits
atoi-numeral s n (c, t, e, lo, hi) h lt =
    let minus : (c == b'-') ≡ false = ground arith in
    let plus : (c == b'+') ≡ false = ground arith in
    let h' : digits_from 0 (c ∷ t) ≡ some n = rw e at h in rw (e, minus, plus, h') (ground arith)

atoi-decimal : (n : ℕ) → n < 9223372036854775808 → atoi (decimal n) ≡ some n
unfolding decimal digits_from
atoi-decimal n lt =
    atoi-numeral (decimal_onto (suc n) n []) n (IsNumeral-decimal (suc n) n [] (inl (omega arith)))
      (digits_from-decimal (suc n) n [] (omega arith)) lt

value-get :
    (name v : Text) (params : SearchParams) → get name params ≡ some v → value name params ≡ v
unfolding get value
value-get name v [] h = absurd cc
value-get name v ((key, old) ∷ params) h = elim (Bool-cases (same key name)) [
  | inl hit ↦ rw hit (let h' : some old ≡ some v = rw (hit, get) at h in cc)
  | inr miss ↦ rw miss (value-get name v params (rw (miss, get) at h))
]

page_or_one-bounds : (o : Option ℕ) → (1 ≤ page_or_one o) × (page_or_one o < 9223372036854775808)
page_or_one-bounds none = (omega arith, omega arith)
page_or_one-bounds (some n) = ground arith

-- Whatever the address says, the server reads a page between 1 and 2^63 - 1.
pub get_page_number-bounds :
    (r : Request) → (1 ≤ get_page_number r) × (get_page_number r < 9223372036854775808)
unfolding get_page_number
get_page_number-bounds r = page_or_one-bounds (atoi (value (codes "page") r.query))

at_least_one-positive : (n : Number) {k : ℕ} → at_least_one n ≡ some k → 1 ≤ k
at_least_one-positive nan h = absurd cc
at_least_one-positive (whole zero) h = absurd cc
at_least_one-positive (whole (suc n)) {k} h = let e : suc n ≡ k = cc in omega arith
at_least_one-positive (negative n) h = absurd cc

go_to_page-positive :
    (param : Option Text) (action : Text) {k : ℕ} → go_to_page param action ≡ some k → 1 ≤ k
unfolding go_to_page
go_to_page-positive param action h = at_least_one-positive _ h

-- The server reads the page that the script has written: where goToPage goes to page `n`, below 2^53, up to
-- where a double holds every number, and loads an address, a request for it is for page `n`.
pub get_page_number-load_page :
    (r : Request) (action : Text) (params : SearchParams) (n : ℕ)
    → go_to_page (get (codes "page") params) action ≡ some n
    → load_page action params ≡ some r.query
    → n < 9007199254740992
    → get_page_number r ≡ n
unfolding get_page_number load_page
get_page_number-load_page r action params n went loaded lt =
    let pos = go_to_page-positive (get (codes "page") params) action went in
    let loaded' : some (set (codes "page") (decimal n) params) ≡ some r.query =
      rw (went, load_page) at loaded in
    let here : r.query ≡ set (codes "page") (decimal n) params = cc in
    let text =
      value-get (codes "page") (decimal n) (set (codes "page") (decimal n) params)
        (get-set (codes "page") (decimal n) params) in
    rw (here, text, atoi-decimal n (omega arith)) (ground arith)
