-- ===== src/Store/Sql.antt =====
-- What the stores use of SQL and of database/sql: `UPDATE … WHERE`, `DELETE … WHERE`,
-- `LIMIT … OFFSET`, and the cursor `sql.Rows`. `ORDER BY key ASC` is `sort_by`, which keeps
-- the order of rows with equal keys: a query that leaves it open sorts twice.
pub mod Laws
use go_fire.Base.{
  ℕ, ◌+◌, Bool, not, List, [], ◌∷◌, Option, none, some, Result, ok, err, if◌then◌else◌, leb, length,
  select, take, drop,
}

-- A point in time or a duration, in nanoseconds.
abbrev pub Time : Type 0
Time = ℕ

abbrev pub minute : Time
minute = 60000000000

module _ {ℓ} {A : Type ℓ} where
  unfoldable pub update_where : (A → Bool) → (A → A) → List A → List A
  update_where p f [] = []
  update_where p f (x ∷ xs) = (if p x then f x else x) ∷ update_where p f xs

  -- `RowsAffected`.
  unfoldable pub affected : (A → Bool) → List A → ℕ
  affected p xs = length (select p xs)

  unfoldable pub delete_where : (A → Bool) → List A → List A
  delete_where p xs = select (λ x. not (p x)) xs

  -- `LIMIT limit OFFSET offset`.
  abbrev pub limit_offset : ℕ → ℕ → List A → List A
  limit_offset limit offset xs = take limit (drop offset xs)

-- A cursor, as `sql.Rows`: `Next` moves it, and `Scan` reads the row under it.
pub record Rows {ℓ} (A : Type ℓ) : Type ℓ where
  pub current : Option A
  pub rest : List A

module _ {ℓ} {A : Type ℓ} where
  -- `QueryContext` returns the cursor before the first row.
  abbrev pub query_rows : List A → Rows A
  query_rows xs = record { current = none; rest = xs }

  abbrev pub scan_at : Option A → Result A
  scan_at none = err "sql: Scan called without calling Next"
  scan_at (some x) = ok x

  abbrev pub scan : Rows A → Result A
  scan rows = scan_at rows.current
