-- ===== src/Pricing/Capped.antt =====
-- backend/internal/domain/pricing/engine.go, "Never more off than the food".
use posserver.Prelude.{◌≡◌, List, [], ◌∷◌, arith, if◌then◌else◌}
use posserver.Prelude.Int.{ℤ, pos, ◌+ℤ◌, ◌-ℤ◌, ◌≤ℤ◌, ltb_ℤ, -ℤ_parts, int_laws, parts_of_eq}
use posserver.Pricing.Types.{Discount}
use posserver.Pricing.Deals.{cap_discounts}
use posserver.Pricing.Charges.{sum_discounts}

-- What is left and what came off make up what there was.
pub cap_discounts-sum :
    (left : ℤ) (ds : List Discount)
    → (cap_discounts left ds).1 +ℤ sum_discounts (cap_discounts left ds).0 ≡ left
unfolding cap_discounts sum_discounts
cap_discounts-sum left [] = omega int_laws
cap_discounts-sum left (d ∷ ds) =
    let amount = if ltb_ℤ left d.amount_cents then left else d.amount_cents in
    omega (int_laws, parts_of_eq _ _ (cap_discounts-sum (left -ℤ amount) ds))

abbrev pub AreNonneg : List Discount → Type 0
AreNonneg [] = Unit
AreNonneg (d ∷ ds) = (pos 0 ≤ℤ d.amount_cents) × AreNonneg ds

-- From food and discounts that are not negative, neither the cut discounts nor what is left is.
pub cap_discounts-AreNonneg :
    (left : ℤ) (ds : List Discount)
    → pos 0 ≤ℤ left
    → AreNonneg ds
    → AreNonneg (cap_discounts left ds).0 × (pos 0 ≤ℤ (cap_discounts left ds).1)
unfolding cap_discounts
cap_discounts-AreNonneg left [] p q = (tt, p)
cap_discounts-AreNonneg left (d ∷ ds) p q =
    let amount = if ltb_ℤ left d.amount_cents then left else d.amount_cents in
    ground (arith, cap_discounts-AreNonneg (left -ℤ amount) ds, -ℤ_parts left amount)
