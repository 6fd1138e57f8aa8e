-- ===== src/Pricing/Charges.antt =====
-- backend/internal/domain/pricing/engine.go, `Price`: what is added to the food after discounts.
use posserver.Prelude.{
  Bool, true, false, not, ◌&&◌, ◌||◌, Option, none, some, List, [], ◌∷◌, if◌then◌else◌, str_eq,
  ◌<>◌,
}
use posserver.Prelude.Int.{ℤ, pos, pos_part, ◌+ℤ◌, ◌-ℤ◌, ◌*ℤ◌, ltb_ℤ, leb_ℤ, eq_ℤ, quot_ℤ}
use posserver.Prelude.Sort.{sort_stable}
use posserver.Pricing.Types.{
  Context, Cart, Settings, Tips, CardFeeMode, cash_discount, surcharge, OrderTypes, Quote, Discount,
  cash, type_off, bad_type, delivery_minimum,
}
use posserver.Pricing.Live.{pct, money, is_empty}
use posserver.Pricing.Lines.{Taxed, add_error, add_nudge}
use posserver.Pricing.Deals.{add_discount, add_warning}

-- The switch on the cart's type.
unfoldable pub check_type : Cart → OrderTypes → Quote → Quote
check_type cart types q =
    if str_eq cart.type "pickup"
    then (if not types.pickup
        then add_error type_off "This store isn't taking pickup orders right now." none q
        else q)
    else if str_eq cart.type "delivery"
    then (if not types.delivery
        then add_error type_off "This store isn't taking delivery orders right now." none q
        else q)
    else add_error bad_type "Choose pickup or delivery." none q

unfoldable pub delivery_fee : ℤ → ℤ → Option ℤ → ℤ
delivery_fee fee after none = fee
delivery_fee fee after (some over) = if leb_ℤ over after then pos 0 else fee

unfoldable pub delivery_nudge : ℤ → ℤ → Option ℤ → Quote → Quote
delivery_nudge fee after none q = q
delivery_nudge fee after (some over) q =
    if leb_ℤ over after
    then q
    else if ltb_ℤ (pos 0) fee
    then add_nudge ("Free delivery over " <> money over <> ": add " <> money (over -ℤ after) <> ".")
        q
    else q

-- The issue of food under the minimum for delivery.
unfoldable pub check_minimum : Settings → ℤ → Quote → Quote
check_minimum st after q =
    if not (is_empty q.lines) && ltb_ℤ after st.delivery_min_cents
    then add_error delivery_minimum
        ("Delivery needs a "
          <> money st.delivery_min_cents
          <> " minimum. Add "
          <> money (st.delivery_min_cents -ℤ after)
          <> " more or pick it up.")
        none q
    else q

unfoldable pub charge_delivery : Context → Cart → ℤ → Quote → Quote
unfolding delivery_fee delivery_nudge check_minimum
charge_delivery ctx cart after q =
    let st = ctx.settings in
    if str_eq cart.type "delivery" && ctx.types.delivery
    then delivery_nudge st.delivery_fee_cents after st.free_delivery_over_cents
        (record (check_minimum st after q) {
          delivery_fee_cents = delivery_fee st.delivery_fee_cents after st.free_delivery_over_cents;
        })
    else q

abbrev pub is_cash_discount : CardFeeMode → Bool
is_cash_discount cash_discount = true
is_cash_discount _ = false

abbrev pub is_surcharge : CardFeeMode → Bool
is_surcharge surcharge = true
is_surcharge _ = false

-- The discount for cash, and the food after it.
unfoldable pub take_cash : Settings → Cart → ℤ → Quote → Quote × ℤ
take_cash st cart after q =
    if is_cash_discount st.card_fee.mode && str_eq cart.payment "cash" && ltb_ℤ (pos 0) after
    then (let off = pct after st.card_fee.bps in
        (
          add_discount
              (record { type = cash; deal_id = ""; label = "Cash discount"; amount_cents = off }) q,
          after -ℤ off,
        ))
    else (q, after)

unfoldable pub service_fee : Settings → ℤ → Bool → ℤ
service_fee st after has_lines =
    if has_lines then st.service_fee_cents +ℤ pct after st.service_fee_bps else pos 0

-- `byRate`, a rate's food in one entry.
unfoldable pub add_rate : Taxed → List Taxed → List Taxed
add_rate t [] = t ∷ []
add_rate t (u ∷ us) =
    let rest = add_rate t us in
    if eq_ℤ u.rate t.rate then record u { total = u.total +ℤ t.total } ∷ us else u ∷ rest

unfoldable pub by_rate : List Taxed → List Taxed → List Taxed
unfolding add_rate
by_rate acc [] = acc
by_rate acc (t ∷ ts) = by_rate (add_rate t acc) ts

-- A rate's share of what came off; the last takes the rest.
unfoldable pub share_of : ℤ → ℤ → ℤ → ℤ → Bool → ℤ
share_of sub off spread gross last =
    if ltb_ℤ (pos 0) sub
    then (if last then off -ℤ spread else quot_ℤ (off *ℤ gross) (pos_part sub))
    else pos 0

-- The shares, in the order of the rates.
unfoldable pub shares : ℤ → ℤ → ℤ → List Taxed → List ℤ
unfolding share_of
shares sub off spread [] = []
shares sub off spread (t ∷ ts) =
    let share = share_of sub off spread t.total (is_empty ts) in
    share ∷ shares sub off (spread +ℤ share) ts

unfoldable pub tax_shares : List Taxed → List ℤ → ℤ
tax_shares [] ss = pos 0
tax_shares (t ∷ ts) [] = pos 0
tax_shares (t ∷ ts) (s ∷ ss) = pct (t.total -ℤ s) t.rate +ℤ tax_shares ts ss

abbrev pub sorted_rates : List Taxed → List Taxed
sorted_rates line_tax = sort_stable (λ a b. ltb_ℤ a.rate b.rate) (by_rate [] line_tax)

-- The tax: on each rate's food less its share, and on the service fee at the store's rate.
unfoldable pub tax : Settings → ℤ → ℤ → ℤ → List Taxed → ℤ
unfolding shares tax_shares by_rate
tax st sub after fee line_tax =
    let rates = sorted_rates line_tax in
    tax_shares rates (shares sub (sub -ℤ after) (pos 0) rates) +ℤ pct fee st.tax_bps

unfoldable pub tip_pct : ℤ → Option ℤ → ℤ
tip_pct default none = default
tip_pct default (some p) = if leb_ℤ (pos 0) p && leb_ℤ p (pos 100) then p else default

unfoldable pub tip_cents : Tips → ℤ → Option ℤ → Option ℤ → ℤ
unfolding tip_pct
tip_cents t after (some c) p =
    if leb_ℤ (pos 0) c then c else pct after (tip_pct t.default_pct p *ℤ pos 100)
tip_cents t after none p = pct after (tip_pct t.default_pct p *ℤ pos 100)

abbrev is_positive : Option ℤ → Bool
is_positive none = false
is_positive (some n) = ltb_ℤ (pos 0) n

unfoldable pub add_tip : Tips → Cart → ℤ → Quote → Quote
unfolding tip_cents
add_tip t cart after q =
    if t.enabled
    then record q { tip_cents = tip_cents t after cart.tip_cents cart.tip_pct }
    else if is_positive cart.tip_cents || is_positive cart.tip_pct
    then add_warning "Tips aren't taken here, so none was added." q
    else q

unfoldable pub card_fee : Settings → Cart → ℤ → ℤ
card_fee st cart amount =
    if is_surcharge st.card_fee.mode && not (str_eq cart.payment "cash")
    then pct amount st.card_fee.bps
    else pos 0

unfoldable pub sum_discounts : List Discount → ℤ
sum_discounts [] = pos 0
sum_discounts (d ∷ ds) = d.amount_cents +ℤ sum_discounts ds
