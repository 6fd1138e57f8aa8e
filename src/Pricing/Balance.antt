-- ===== src/Pricing/Balance.antt =====
-- backend/internal/domain/pricing/engine.go, `Price`: the quote adds up.
use posserver.Prelude.{◌≡◌, refl, sym, ap, ◌∙◌, not, List, []}
use posserver.Prelude.Int.{ℤ, ◌+ℤ◌, int_laws, parts_of_eq}
use posserver.Order.Types.{Time}
use posserver.Pricing.Types.{Quote, Context, Cart, World, Settings}
use posserver.Pricing.Lines.{Drafted, Taxed}
use posserver.Pricing.Live.{is_empty}
use posserver.Pricing.Deals.{auto_deals, promo}
use posserver.Pricing.Charges.{
  tax, service_fee, check_type, charge_delivery, take_cash, sum_discounts,
}
use posserver.Pricing.Quote.{add_up, apply_deals, add_charges, price_cart, sum_lines, draft}
use posserver.Pricing.Capped.{cap_discounts-sum}
use posserver.Pricing.Totals.{
  Keeps-trans, check_type-Keeps, charge_delivery-Keeps, add_tip-Keeps, add_charges-total,
}
use posserver.Pricing.Frame.{
  SameFood, SameBefore, same, of_Keeps, SameFood-trans, before_same, if-SameBefore,
  auto_deals-KeptBefore, promo-KeptBefore, stack_deals-SameFood,
}

-- What the deals leave of the food, with what they took off.
apply_deals-left :
    (w : World) (ctx : Context) (cart : Cart) (at : Time) (d : Drafted) (q : Quote)
    → (apply_deals w ctx cart at d q).1 +ℤ sum_discounts (apply_deals w ctx cart at d q).0.discounts
      ≡ q.subtotal_cents
unfolding apply_deals
apply_deals-left w ctx cart at d q = cap_discounts-sum q.subtotal_cents _

pub apply_deals-SameFood :
    (w : World) (ctx : Context) (cart : Cart) (at : Time) (d : Drafted) (q : Quote)
    → SameFood q (apply_deals w ctx cart at d q).0
unfolding apply_deals
apply_deals-SameFood w ctx cart at d q =
    let sub = q.subtotal_cents in
    let step = auto_deals w ctx cart at sub d.units ctx.deals (q, []) in
    let step2 = promo w ctx cart at sub step.0 in
    let k = auto_deals-KeptBefore w ctx cart at sub d.units ctx.deals q [] in
    let l = promo-KeptBefore w ctx cart at sub step.0 in
    let m = stack_deals-SameFood ctx.settings.stacking d.has_bundle step.1 step2.1 step2.0 in
    let n = SameFood-trans q step2.0 _ (of_Keeps q _ (Keeps-trans q step.0 _ k.quote l.quote)) m in
    record { lines = n.lines; subtotal = n.subtotal; clean = n.clean }

pub take_cash-SameBefore :
    (st : Settings) (cart : Cart) (left : ℤ) (q : Quote) → SameBefore q (take_cash st cart left q)
unfolding take_cash
take_cash-SameBefore st cart left q =
    if-SameBefore q _ _ _
      (before_same q _ _ (record { lines = refl; subtotal = refl; clean = λ h. h }))
      (before_same q q _ (same q))

pub add_charges-SameFood :
    (ctx : Context) (cart : Cart) (line_tax : List Taxed) (q : Quote) (left : ℤ)
    → SameFood q (add_charges ctx cart line_tax q left)
unfolding add_charges
add_charges-SameFood ctx cart line_tax q left =
    let st = ctx.settings in
    let q0 = check_type cart ctx.types q in
    let q1 = charge_delivery ctx cart left q0 in
    let (q2, after) = take_cash st cart left q1 in
    let fee = service_fee st after (not (is_empty q2.lines)) in
    let q3 : Quote = record q2 {
      service_fee_cents = fee;
      tax_cents = tax st q2.subtotal_cents after fee line_tax;
    } in
    let k = of_Keeps q q0 (check_type-Keeps cart ctx.types q) in
    let l = of_Keeps q0 q1 (charge_delivery-Keeps ctx cart left q0) in
    let m = (take_cash-SameBefore st cart left q1).food in
    let n = add_tip-Keeps st.tips cart after q3 in
    let o = SameFood-trans q q1 q2 (SameFood-trans q q0 q1 k l) m in
    record {
      lines = n.lines ∙ o.lines;
      subtotal = n.subtotal ∙ o.subtotal;
      clean = λ h. o.clean (n.clean h);
    }

add_up-subtotal : (q : Quote) → (add_up q).subtotal_cents ≡ sum_lines (add_up q).lines
unfolding add_up
add_up-subtotal q = refl

-- Every quote adds up, with or without issues: the subtotal is the sum of the lines, and the total
-- with all that came off (deals, code and cash) is the subtotal with the delivery and service fees,
-- the tax, the tip and the card fee.
pub price_cart-adds_up :
    (w : World) (ctx : Context) (cart : Cart) (at : Time)
    → let q = price_cart w ctx cart at in
      (q.subtotal_cents ≡ sum_lines q.lines)
      × (q.total_cents +ℤ sum_discounts q.discounts
          ≡ q.subtotal_cents +ℤ q.delivery_fee_cents +ℤ q.service_fee_cents +ℤ q.tax_cents
            +ℤ q.tip_cents +ℤ q.card_fee_cents)
unfolding price_cart
price_cart-adds_up w ctx cart at =
    let d = draft w ctx cart at in
    let q0 = add_up d.quote in
    let x = apply_deals w ctx cart at d q0 in
    let k =
      SameFood-trans q0 x.0 _ (apply_deals-SameFood w ctx cart at d q0)
        (add_charges-SameFood ctx cart d.line_tax x.0 x.1) in
    let left = apply_deals-left w ctx cart at d q0 in
    (
      k.subtotal ∙ add_up-subtotal d.quote ∙ sym (ap sum_lines k.lines),
      omega (
        int_laws,
        parts_of_eq _ _ (add_charges-total ctx cart d.line_tax x.0 x.1),
        parts_of_eq _ _ k.subtotal,
        parts_of_eq _ _ left,
      ),
    )
