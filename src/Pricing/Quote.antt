-- ===== src/Pricing/Quote.antt =====
-- backend/internal/domain/pricing/engine.go, `Price`: a cart's quote, step by step.
use posserver.Prelude.{false, not, none, List, [], ◌∷◌, if◌then◌else◌}
use posserver.Prelude.Int.{ℤ, pos, ◌+ℤ◌}
use posserver.Order.Types.{Time}
use posserver.Pricing.Types.{Context, Cart, Quote, QuoteLine, empty, World}
use posserver.Pricing.Live.{is_empty}
use posserver.Pricing.Item.{new_engine}
use posserver.Pricing.Lines.{Drafted, Taxed, add_error, draft_lines}
use posserver.Pricing.Deals.{auto_deals, promo, stack_deals, cap_discounts}
use posserver.Pricing.Charges.{
  check_type, charge_delivery, take_cash, service_fee, tax, add_tip, card_fee, sum_discounts,
}

abbrev pub no_quote : Quote
no_quote = record {
  lines = [];
  subtotal_cents = pos 0;
  discounts = [];
  delivery_fee_cents = pos 0;
  service_fee_cents = pos 0;
  tax_cents = pos 0;
  tip_cents = pos 0;
  card_fee_cents = pos 0;
  total_cents = pos 0;
  saved_cents = pos 0;
  errors = [];
  warnings = [];
  nudges = [];
}

-- The lines.
unfoldable pub draft : World → Context → Cart → Time → Drafted
draft w ctx cart at =
    draft_lines w (new_engine ctx) cart at 0 cart.lines
      (record { quote = no_quote; units = []; line_tax = []; has_bundle = false })

unfoldable pub sum_lines : List QuoteLine → ℤ
sum_lines [] = pos 0
sum_lines (l ∷ ls) = l.total_cents +ℤ sum_lines ls

-- The subtotal, and the issue of an empty cart.
unfoldable pub add_up : Quote → Quote
unfolding sum_lines
add_up q =
    let q' = if is_empty q.lines then add_error empty "Your order is empty." none q else q in
    record q' { subtotal_cents = sum_lines q'.lines }

-- The deals and the code, cut to the food.
unfoldable pub apply_deals : World → Context → Cart → Time → Drafted → Quote → Quote × ℤ
apply_deals w ctx cart at d q =
    let sub = q.subtotal_cents in
    let (q1, autos) = auto_deals w ctx cart at sub d.units ctx.deals (q, []) in
    let (q2, c) = promo w ctx cart at sub q1 in
    let q3 = stack_deals ctx.settings.stacking d.has_bundle autos c q2 in
    let (capped, left) = cap_discounts sub q3.discounts in (record q3 { discounts = capped }, left)

-- The fees, the tax, the tip and the total, over the food after discounts.
unfoldable pub add_charges : Context → Cart → List Taxed → Quote → ℤ → Quote
add_charges ctx cart line_tax q left =
    let st = ctx.settings in
    let q1 = charge_delivery ctx cart left (check_type cart ctx.types q) in
    let (q2, after) = take_cash st cart left q1 in
    let fee = service_fee st after (not (is_empty q2.lines)) in
    let taxed = tax st q2.subtotal_cents after fee line_tax in
    let q3 =
      add_tip st.tips cart after (record q2 { service_fee_cents = fee; tax_cents = taxed }) in
    let card =
      card_fee st cart (after +ℤ q3.delivery_fee_cents +ℤ q3.service_fee_cents +ℤ q3.tax_cents) in
    record q3 {
      card_fee_cents = card;
      total_cents =
          after +ℤ q3.delivery_fee_cents +ℤ q3.service_fee_cents +ℤ q3.tax_cents +ℤ q3.tip_cents
          +ℤ card;
      saved_cents = q3.saved_cents +ℤ sum_discounts q3.discounts;
    }

-- `Price`.
unfoldable pub price_cart : World → Context → Cart → Time → Quote
price_cart w ctx cart at =
    let d = draft w ctx cart at in
    let (q, left) = apply_deals w ctx cart at d (add_up d.quote) in
    add_charges ctx cart d.line_tax q left
