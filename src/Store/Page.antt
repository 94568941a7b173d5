-- ===== src/Store/Page.antt =====
-- Pages of a query's result (types/paginated_result.go and the arithmetic of the stores' queries).
use go_fire.Base.{ℕ, ◌+◌, ◌-◌, ◌*◌, ◌/◌, Bool, List, ltb, if◌then◌else◌}

pub record PaginationResult {ℓ} (A : Type ℓ) : Type ℓ where
  pub items : List A
  pub total_items : ℕ
  pub page : ℕ
  pub page_size : ℕ
  pub total_pages : ℕ
  pub has_next_page : Bool
  pub has_previous_page : Bool

-- `if page < 1 { page = 1 }`. A negative page of the source is 0 here: both become 1.
unfoldable pub clamp_page : ℕ → ℕ
clamp_page page = if ltb page 1 then 1 else page

unfoldable pub offset_of : ℕ → ℕ → ℕ
offset_of page page_size = (page - 1) * page_size

-- `int(math.Ceil(float64(total) / float64(size)))` for a positive size: the quotient of numbers
-- below 2^53 is rounded up exactly.
unfoldable pub ceil_div : ℕ → ℕ → ℕ
ceil_div total size = (total + size - 1) / size

unfoldable pub page_result {ℓ} : {A : Type ℓ} → List A → ℕ → ℕ → ℕ → PaginationResult A
unfolding ceil_div
page_result items total page size = record {
  items = items;
  total_items = total;
  page = page;
  page_size = size;
  total_pages = ceil_div total size;
  has_next_page = ltb page (ceil_div total size);
  has_previous_page = ltb 1 page;
}
