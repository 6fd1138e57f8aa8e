-- ===== src/Pricing/Amounts.antt =====
-- backend/internal/domain/pricing: what a deal that `Validate` accepts takes off is never more than
-- what the units that it covers cost.
use posserver.Prelude.{
  ℕ, zero, suc, ◌-◌, ◌≡◌, refl, ap, ◌∙◌, Bool, true, false, none, List, [], ◌∷◌, arith,
  if◌then◌else◌,
}
use posserver.Prelude.Int.{
  ℤ, pos, negsuc, pos_part, ◌+ℤ◌, ◌-ℤ◌, ◌*ℤ◌, ◌≤ℤ◌, ltb_ℤ, +ℤ_parts, -ℤ_parts, int_laws,
  parts_of_eq,
}
use posserver.Prelude.Sort.{sort_stable, insert_sorted}
use posserver.Pricing.Types.{Deal, DealKind, Quote, World}
use posserver.Pricing.Live.{UnitPrice, pct}
use posserver.Pricing.Deals.{
  mix_amount, nth_amount, cheapest, mix_deal, nth_deal, free_item_deal, auto_amount,
}
use posserver.Pricing.Passed.{validate_deal-HasPassed}
use posserver.Pricing.DealRules.{kind_error, validate_deal}
use posserver.Pricing.Rounding.{pct-le}

unfoldable pub sum_prices : List UnitPrice → ℤ
sum_prices [] = pos 0
sum_prices (u ∷ us) = u.price +ℤ sum_prices us

abbrev pub ArePriced : List UnitPrice → Type 0
ArePriced [] = Unit
ArePriced (u ∷ us) = (pos 0 ≤ℤ u.price) × ArePriced us

-- From 0 to what the units cost.
abbrev pub Covered : List UnitPrice → ℤ → Type 0
Covered us n = (pos 0 ≤ℤ n) × (n ≤ℤ sum_prices us)

sum_prices-nonneg : (us : List UnitPrice) → ArePriced us → pos 0 ≤ℤ sum_prices us
unfolding sum_prices
sum_prices-nonneg [] p = omega arith
sum_prices-nonneg (u ∷ us) (p, ps) = omega (int_laws, sum_prices-nonneg us ps)

mix_amount-Covered :
    (each : ℤ) (us : List UnitPrice)
    → pos 0 ≤ℤ each
    → ArePriced us
    → Covered us (mix_amount each us)
unfolding mix_amount sum_prices
mix_amount-Covered each [] h p = ground arith
mix_amount-Covered each (u ∷ us) h (p, ps) =
    let off = if ltb_ℤ each u.price then u.price -ℤ each else pos 0 in
    let least : (pos 0 ≤ℤ off) × (off ≤ℤ u.price) = ground (arith, -ℤ_parts u.price each) in
    let rest = mix_amount-Covered each us h ps in
    (omega (int_laws, least.0, rest.0), omega (int_laws, least.1, rest.1))

pub pct_within :
    (amount bps : ℤ)
    → pos 0 ≤ℤ amount
    → pos 0 ≤ℤ bps
    → bps ≤ℤ pos 10_000
    → (pos 0 ≤ℤ pct amount bps) × (pct amount bps ≤ℤ amount)
pct_within (pos a) (pos b) p q r = pct-le a b (omega arith)
pct_within (negsuc a) b p q r = absurd (ground arith)
pct_within (pos a) (negsuc b) p q r = absurd (ground arith)

nth_amount-Covered :
    (bps : ℤ) (n wait : ℕ) (us : List UnitPrice)
    → pos 0 ≤ℤ bps
    → bps ≤ℤ pos 10_000
    → ArePriced us
    → Covered us (nth_amount bps n wait us)
unfolding nth_amount sum_prices
nth_amount-Covered bps n wait [] p q r = ground arith
nth_amount-Covered bps n zero (u ∷ us) p q (r, rs) =
    let off = pct_within u.price bps r p q in
    let rest = nth_amount-Covered bps n (n - 1) us p q rs in
    (omega (int_laws, off.0, rest.0), omega (int_laws, off.1, rest.1))
nth_amount-Covered bps n (suc wait) (u ∷ us) p q (r, rs) =
    let rest = nth_amount-Covered bps n wait us p q rs in (rest.0, omega (int_laws, r, rest.1))

cheapest-within :
    (amount : ℤ) (us : List UnitPrice)
    → pos 0 ≤ℤ amount
    → ArePriced us
    → (pos 0 ≤ℤ cheapest amount us) × (cheapest amount us ≤ℤ amount)
unfolding cheapest
cheapest-within amount [] h p = ground arith
cheapest-within amount (u ∷ us) h (p, ps) =
    let next = if ltb_ℤ u.price amount then u.price else amount in
    let least : (pos 0 ≤ℤ next) × (next ≤ℤ amount) = ground arith in
    let rest = cheapest-within next us least.0 ps in (rest.0, omega (arith, rest.1, least.1))

module _ (less : UnitPrice → UnitPrice → Bool) where
  insert_sorted-sum :
      (u : UnitPrice) (us : List UnitPrice)
      → sum_prices (insert_sorted less u us) ≡ u.price +ℤ sum_prices us
  unfolding insert_sorted sum_prices
  insert_sorted-sum u [] = refl
  insert_sorted-sum u (v ∷ us) =
      elim (less v u)
        as (λ b.
          sum_prices (elim b [ true ↦ v ∷ insert_sorted less u us | false ↦ u ∷ v ∷ us ])
          ≡ u.price +ℤ (v.price +ℤ sum_prices us)) [
            | true ↦ omega (int_laws, parts_of_eq _ _ (insert_sorted-sum u us))
            | false ↦ refl
          ]

  insert_sorted-ArePriced :
      (u : UnitPrice) (us : List UnitPrice)
      → pos 0 ≤ℤ u.price
      → ArePriced us
      → ArePriced (insert_sorted less u us)
  unfolding insert_sorted
  insert_sorted-ArePriced u [] p ps = (p, ps)
  insert_sorted-ArePriced u (v ∷ us) p (r, ps) =
      elim (less v u)
        as (λ b. ArePriced (elim b [ true ↦ v ∷ insert_sorted less u us | false ↦ u ∷ v ∷ us ])) [
          | true ↦ (r, insert_sorted-ArePriced u us p ps)
          | false ↦ (p, (r, ps))
        ]

  sort_stable-sum : (us : List UnitPrice) → sum_prices (sort_stable less us) ≡ sum_prices us
  unfolding sort_stable sum_prices
  sort_stable-sum [] = refl
  sort_stable-sum (u ∷ us) =
      insert_sorted-sum u (sort_stable less us) ∙ ap (λ n. u.price +ℤ n) (sort_stable-sum us)

  sort_stable-ArePriced : (us : List UnitPrice) → ArePriced us → ArePriced (sort_stable less us)
  unfolding sort_stable
  sort_stable-ArePriced [] p = p
  sort_stable-ArePriced (u ∷ us) (p, ps) =
      insert_sorted-ArePriced u (sort_stable less us) p (sort_stable-ArePriced us ps)

-- The first of a pair, where the two ways are covered.
if-Covered :
    (us : List UnitPrice) (b : Bool) (x y : ℤ × Quote)
    → Covered us x.0
    → Covered us y.0
    → Covered us (if b then x else y).0
if-Covered us true x y p q = p
if-Covered us false x y p q = q

none_off : (us : List UnitPrice) → ArePriced us → Covered us (pos 0)
none_off us p = (ground arith, sum_prices-nonneg us p)

mix_deal-Covered :
    (d : Deal) (us : List UnitPrice) (q : Quote)
    → kind_error DealKind.mix d ≡ none
    → ArePriced us
    → Covered us (mix_deal d us q).0
unfolding mix_deal kind_error
mix_deal-Covered d us q h p =
    ground
      (arith, none_off us p, λ (e : pos 0 ≤ℤ d.each_cents). mix_amount-Covered d.each_cents us e p)

hundredths :
    (p : ℤ) → pos 1 ≤ℤ p → p ≤ℤ pos 100 → (pos 0 ≤ℤ p *ℤ pos 100) × (p *ℤ pos 100 ≤ℤ pos 10_000)
unfolding ◌*ℤ◌
hundredths (pos n) h k = ground arith
hundredths (negsuc n) h k = absurd (ground arith)

nth_rates : (d : Deal) → kind_error DealKind.nth d ≡ none → (pos 1 ≤ℤ d.pct) × (d.pct ≤ℤ pos 100)
unfolding kind_error
nth_rates d h = ground arith

nth_deal-Covered :
    (d : Deal) (us : List UnitPrice) (q : Quote)
    → kind_error DealKind.nth d ≡ none
    → ArePriced us
    → Covered us (nth_deal d us q).0
unfolding nth_deal
nth_deal-Covered d us q h p =
    let less : UnitPrice → UnitPrice → Bool = λ a b. ltb_ℤ b.price a.price in
    let n = pos_part d.n in
    let rate = nth_rates d h in
    let bps = hundredths d.pct rate.0 rate.1 in
    let off =
      nth_amount-Covered (d.pct *ℤ pos 100) n (n - 1) (sort_stable less us) bps.0 bps.1
        (sort_stable-ArePriced less us p) in
    if-Covered us (ltb_ℤ d.n (pos 1)) _ _ (none_off us p)
      (off.0, omega (arith, off.1, parts_of_eq _ _ (sort_stable-sum less us)))

free_item_deal-Covered :
    (d : Deal) (sub : ℤ) (us : List UnitPrice) (q : Quote)
    → ArePriced us
    → Covered us (free_item_deal d sub us q).0
unfolding free_item_deal sum_prices
free_item_deal-Covered d sub [] q p = ground arith
free_item_deal-Covered d sub (u ∷ us) q (p, ps) = ground (
  arith,
  cheapest-within u.price (u ∷ us) p (p, ps),
  sum_prices-nonneg us ps,
  +ℤ_parts u.price (sum_prices us),
)

covered :
    (k : DealKind) (d : Deal) (sub : ℤ) (us : List UnitPrice) (q : Quote)
    → kind_error k d ≡ none
    → ArePriced us
    → Covered us (auto_amount k d sub us q).0
unfolding auto_amount
covered DealKind.bundle d sub us q h p = none_off us p
covered DealKind.mix d sub us q h p = mix_deal-Covered d us q h p
covered DealKind.nth d sub us q h p = nth_deal-Covered d us q h p
covered DealKind.promo_code d sub us q h p = none_off us p
covered DealKind.free_item d sub us q h p = free_item_deal-Covered d sub us q p
covered (DealKind.other s) d sub us q h p = none_off us p

-- Of units that cost nothing or more, an automatic deal that `Validate` accepts takes off at least
-- nothing and at most what they cost together.
pub auto_amount-Covered :
    (w : World) (given : Deal) (sub : ℤ) (us : List UnitPrice) (q : Quote)
    → (validate_deal w given).0 ≡ none
    → ArePriced us
    → let d = (validate_deal w given).1 in Covered us (auto_amount d.kind d sub us q).0
auto_amount-Covered w given sub us q h p =
    let d = (validate_deal w given).1 in
    covered d.kind d sub us q ((validate_deal-HasPassed w given).kind h) p
