-- ===== src/Web/Scripts/Laws.antt =====
-- Laws of the dashboard's script.
use go_fire.Base.{ℕ, suc, ◌+◌, ◌≤◌, ◌≡◌, ◌⊎◌, ◌↔◌, true, false, Option, some, arith}
use go_fire.Text.{Text, codes, same}
use go_fire.Web.Scripts.{nan, whole, parse_int, go_to_page}

-- The pager moves one page at a time and never below page 1: from a page `p` of the address,
-- missing, unreadable or 0 counting as 1, it loads the next page, or the one before if there is one.
pub go_to_page_lem :
    (param : Option Text) (action : Text) (p q : ℕ)
    → ((parse_int param ≡ whole (suc p))
        ⊎ ((p ≡ 0) × ((parse_int param ≡ nan) ⊎ (parse_int param ≡ whole 0))))
    → (go_to_page param action ≡ some q) ↔ (
        ((same action (codes "next") ≡ true) × (q ≡ suc p + 1))
        ⊎ ((same action (codes "next") ≡ false) × (1 ≤ q) × (q + 1 ≡ suc p)))
unfolding go_to_page
go_to_page_lem param action p q h = (λ e. ground arith, λ e. ground arith)
