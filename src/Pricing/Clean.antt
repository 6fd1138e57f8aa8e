-- ===== src/Pricing/Clean.antt =====
-- backend/internal/domain/pricing/engine.go, `Price`: what a quote without errors promises.
use posserver.Prelude.{
  ℕ, String, ◌≡◌, sym, ap, ◌∙◌, ◌≢◌, ◌⊎◌, inl, inr, true, false, not, Option, none, List, [], ◌∷◌,
  arith, str_eq_iff, ◌<>◌,
}
use posserver.Prelude.Int.{ℤ, ◌-ℤ◌, ◌≤ℤ◌}
use posserver.Order.Types.{Time}
use posserver.Pricing.Types.{
  type_off, bad_type, delivery_minimum, Quote, Context, Cart, World, IssueCode, Issue, OrderTypes,
  Settings, empty,
}
use posserver.Pricing.Live.{money, is_empty}
use posserver.Pricing.Lines.{Taxed, add_error, has_issue}
use posserver.Pricing.Charges.{
  check_type, check_minimum, charge_delivery, delivery_fee, take_cash, tax, service_fee,
}
use posserver.Pricing.Quote.{add_up, apply_deals, add_charges, price_cart, draft}
use posserver.Pricing.Totals.{
  delivery_nudge-Keeps, add_tip-Keeps, charge_delivery-Keeps, check_type-Keeps, snoc-ne-nil,
}
use posserver.Pricing.Balance.{apply_deals-SameFood, take_cash-SameBefore, add_charges-SameFood}

has_issue-some : (c : IssueCode) (m : String) (is : List Issue) → has_issue c m is ≡ true → is ≢ []
unfolding has_issue
has_issue-some c m [] h e = ground arith
has_issue-some c m (i ∷ is) h e = ground arith

-- An issue that is added, or was there, is an error.
add_error-errs :
    (c : IssueCode) (m : String) (l : Option ℕ) (q : Quote) → (add_error c m l q).errors ≢ []
unfolding add_error
add_error-errs c m l q h = ground (
  arith,
  has_issue-some c m q.errors,
  snoc-ne-nil q.errors (record { code = c; message = m; line = l }),
)

-- The order's type is one that the store takes.
abbrev pub IsTaken : Cart → OrderTypes → Type 0
IsTaken cart types =
    ((cart.type ≡ "pickup") × (types.pickup ≡ true))
    ⊎ ((cart.type ≡ "delivery") × (types.delivery ≡ true))

check_type-IsTaken :
    (cart : Cart) (types : OrderTypes) (q : Quote)
    → (check_type cart types q).errors ≡ []
    → IsTaken cart types
unfolding check_type
check_type-IsTaken cart types q h = ground (
  arith,
  str_eq_iff cart.type "pickup",
  str_eq_iff cart.type "delivery",
  add_error-errs type_off "This store isn't taking pickup orders right now." none q,
  add_error-errs type_off "This store isn't taking delivery orders right now." none q,
  add_error-errs bad_type "Choose pickup or delivery." none q,
)

takes_delivery :
    (cart : Cart) (types : OrderTypes)
    → IsTaken cart types
    → cart.type ≡ "delivery"
    → types.delivery ≡ true
takes_delivery cart types (inl (p, q)) t =
    absurd (ground (arith, (str_eq_iff "pickup" "delivery").1 (sym p ∙ t)))
takes_delivery cart types (inr (p, q)) t = q

check_minimum-enough :
    (st : Settings) (after : ℤ) (q : Quote)
    → (check_minimum st after q).errors ≡ []
    → is_empty q.lines ≡ false
    → st.delivery_min_cents ≤ℤ after
unfolding check_minimum
check_minimum-enough st after q h e = ground (
  arith,
  add_error-errs delivery_minimum
      ("Delivery needs a "
        <> money st.delivery_min_cents
        <> " minimum. Add "
        <> money (st.delivery_min_cents -ℤ after)
        <> " more or pick it up.")
      none q,
)

charge_delivery-enough :
    (ctx : Context) (cart : Cart) (after : ℤ) (q : Quote)
    → (charge_delivery ctx cart after q).errors ≡ []
    → is_empty q.lines ≡ false
    → cart.type ≡ "delivery"
    → ctx.types.delivery ≡ true
    → ctx.settings.delivery_min_cents ≤ℤ after
unfolding charge_delivery
charge_delivery-enough ctx cart after q h e t d =
    let st = ctx.settings in
    let fee = delivery_fee st.delivery_fee_cents after st.free_delivery_over_cents in
    let least = check_minimum st after q in
    let nudged =
      delivery_nudge-Keeps st.delivery_fee_cents after st.free_delivery_over_cents
        (record least { delivery_fee_cents = fee }) in
    ground (
      arith,
      (str_eq_iff cart.type "delivery").1 t,
      nudged.clean,
      λ (c : least.errors ≡ []). check_minimum-enough st after q c e,
    )

add_up-is_empty : (q : Quote) → (add_up q).errors ≡ [] → is_empty (add_up q).lines ≡ false
unfolding add_up
add_up-is_empty q h = ground (arith, add_error-errs empty "Your order is empty." none q)

add_charges-clean :
    (ctx : Context) (cart : Cart) (line_tax : List Taxed) (q : Quote) (left : ℤ)
    → (add_charges ctx cart line_tax q left).errors ≡ []
    → (charge_delivery ctx cart left (check_type cart ctx.types q)).errors ≡ []
unfolding add_charges
add_charges-clean ctx cart line_tax q left h =
    let st = ctx.settings in
    let q1 = charge_delivery ctx cart left (check_type cart ctx.types q) in
    let (q2, after) = take_cash st cart left q1 in
    let fee = service_fee st after (not (is_empty q2.lines)) in
    let q3 : Quote = record q2 {
      service_fee_cents = fee;
      tax_cents = tax st q2.subtotal_cents after fee line_tax;
    } in
    (take_cash-SameBefore st cart left q1).food.clean
      ((add_tip-Keeps st.tips cart after q3).clean h)

-- A quote without errors has lines, its cart is of a type that the store takes, and for delivery
-- the food after the deals and the code meets the store's minimum.
pub price_cart-IsOrderable :
    (w : World) (ctx : Context) (cart : Cart) (at : Time)
    → let d = draft w ctx cart at in
      let q = price_cart w ctx cart at in
      q.errors ≡ []
      → (is_empty q.lines ≡ false)
        × IsTaken cart ctx.types
        × (cart.type ≡ "delivery"
            → ctx.settings.delivery_min_cents ≤ℤ (apply_deals w ctx cart at d (add_up d.quote)).1)
unfolding price_cart
price_cart-IsOrderable w ctx cart at h =
    let d = draft w ctx cart at in
    let q0 = add_up d.quote in
    let x = apply_deals w ctx cart at d q0 in
    let typed = check_type cart ctx.types x.0 in
    let before = apply_deals-SameFood w ctx cart at d q0 in
    let after = add_charges-SameFood ctx cart d.line_tax x.0 x.1 in
    let charged = add_charges-clean ctx cart d.line_tax x.0 x.1 h in
    let kept = charge_delivery-Keeps ctx cart x.1 typed in
    let taken = check_type-IsTaken cart ctx.types x.0 (kept.clean charged) in
    let filled : is_empty x.0.lines ≡ false =
      ap is_empty before.lines ∙ add_up-is_empty d.quote (before.clean (after.clean h)) in
    (
      ap is_empty after.lines ∙ filled,
      taken,
      λ t.
          charge_delivery-enough ctx cart x.1 typed charged
            (ap is_empty (check_type-Keeps cart ctx.types x.0).lines ∙ filled) t
            (takes_delivery cart ctx.types taken t),
    )
