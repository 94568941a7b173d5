-- ===== src/Cron/Search.antt =====
-- sort.SearchInts, and contains (pgk/parser/cron_expression_parser.go).
use go_fire.Base.{
  ℕ, zero, suc, ◌+◌, ◌/◌, Bool, ◌&&◌, List, [], ◌∷◌, if◌then◌else◌, ltb, ◌==◌, length,
}
use go_fire.Cron.Int.{signed_le}

-- `vals[i]`, which is read in range only.
abbrev pub at : List ℕ → ℕ → ℕ
at [] i = 0
at (x ∷ xs) zero = x
at (x ∷ xs) (suc i) = at xs i

-- `for i < j { h := (i + j) / 2; if !(vals[h] >= v) { i = h + 1 } else { j = h } }; return i`.
unfoldable pub search_from : ℕ → List ℕ → ℕ → ℕ → ℕ → ℕ
search_from zero vals v i j = i
search_from (suc fuel) vals v i j =
    let h = (i + j) / 2 in
    let right = search_from fuel vals v (h + 1) j in
    let left = search_from fuel vals v i h in
    if ltb i j then (if signed_le v (at vals h) then left else right) else i

unfoldable pub search_ints : List ℕ → ℕ → ℕ
unfolding search_from
search_ints vals v = search_from (suc (length vals)) vals v 0 (length vals)

unfoldable pub contains : List ℕ → ℕ → Bool
unfolding search_ints
contains vals v = let i = search_ints vals v in ltb i (length vals) && at vals i == v
