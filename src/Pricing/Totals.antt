-- ===== src/Pricing/Totals.antt =====
-- backend/internal/domain/pricing/engine.go, `Price`: the total, over every path through the steps.
use posserver.Prelude.{
  ℕ, String, ◌≡◌, refl, ap, ◌∙◌, ◌≢◌, Bool, true, false, not, Option, none, some, List, [], ◌∷◌,
  ◌++◌, arith, if◌then◌else◌,
}
use posserver.Prelude.Int.{ℤ, ◌+ℤ◌, ◌-ℤ◌, int_laws, parts_of_eq}
use posserver.Pricing.Types.{
  Issue, Quote, Discount, Context, Cart, IssueCode, OrderTypes, Settings, Tips,
}
use posserver.Pricing.Lines.{add_error, add_nudge, Taxed}
use posserver.Pricing.Deals.{add_discount}
use posserver.Pricing.Live.{is_empty}
use posserver.Pricing.Charges.{
  tax, service_fee, check_minimum, check_type, charge_delivery, delivery_nudge, take_cash, add_tip,
  sum_discounts,
}
use posserver.Pricing.Quote.{add_charges}

-- The same food: the lines, their sum, what came off and what it saved.
pub record Keeps (q q' : Quote) : Type 0 where
  pub lines : q'.lines ≡ q.lines
  pub subtotal : q'.subtotal_cents ≡ q.subtotal_cents
  pub discounts : q'.discounts ≡ q.discounts
  pub saved : q'.saved_cents ≡ q.saved_cents
  pub clean : q'.errors ≡ [] → q.errors ≡ []

pub kept : (q : Quote) → Keeps q q
kept q = record { lines = refl; subtotal = refl; discounts = refl; saved = refl; clean = λ h. h }

pub if-Keeps :
    (q : Quote) (b : Bool) (x y : Quote) → Keeps q x → Keeps q y → Keeps q (if b then x else y)
if-Keeps q true x y p p' = p
if-Keeps q false x y p p' = p'

pub snoc-ne-nil : (is : List Issue) (i : Issue) → is ++ i ∷ [] ≢ []
snoc-ne-nil [] i h = ground arith
snoc-ne-nil (j ∷ is) i h = ground arith

pub add_error-Keeps :
    (c : IssueCode) (m : String) (l : Option ℕ) (q : Quote) → Keeps q (add_error c m l q)
unfolding add_error
add_error-Keeps c m l q = if-Keeps q _ _ _ (kept q) record {
  lines = refl;
  subtotal = refl;
  discounts = refl;
  saved = refl;
  clean = λ h. absurd (snoc-ne-nil q.errors _ h);
}

pub add_nudge-Keeps : (m : String) (q : Quote) → Keeps q (add_nudge m q)
unfolding add_nudge
add_nudge-Keeps m q =
    if-Keeps q _ _ _ (kept q)
      record { lines = refl; subtotal = refl; discounts = refl; saved = refl; clean = λ h. h }

pub check_type-Keeps :
    (cart : Cart) (types : OrderTypes) (q : Quote) → Keeps q (check_type cart types q)
unfolding check_type
check_type-Keeps cart types q = search (if-Keeps, add_error-Keeps, kept)

pub delivery_nudge-Keeps :
    (fee after : ℤ) (over : Option ℤ) (q : Quote) → Keeps q (delivery_nudge fee after over q)
unfolding delivery_nudge
delivery_nudge-Keeps fee after none q = kept q
delivery_nudge-Keeps fee after (some over) q = search (if-Keeps, add_nudge-Keeps, kept)

pub Keeps-trans : (q r s : Quote) → Keeps q r → Keeps r s → Keeps q s
Keeps-trans q r s k l = record {
  lines = l.lines ∙ k.lines;
  subtotal = l.subtotal ∙ k.subtotal;
  discounts = l.discounts ∙ k.discounts;
  saved = l.saved ∙ k.saved;
  clean = λ h. k.clean (l.clean h);
}

charged :
    (fee amount after : ℤ) (over : Option ℤ) (q r : Quote)
    → Keeps q r
    → Keeps q (delivery_nudge fee after over (record r { delivery_fee_cents = amount }))
charged fee amount after over q r k =
    Keeps-trans q _ _
      (record {
        lines = k.lines;
        subtotal = k.subtotal;
        discounts = k.discounts;
        saved = k.saved;
        clean = k.clean;
      })
      (delivery_nudge-Keeps fee after over _)

check_minimum-Keeps : (st : Settings) (after : ℤ) (q : Quote) → Keeps q (check_minimum st after q)
unfolding check_minimum
check_minimum-Keeps st after q = search (if-Keeps, add_error-Keeps, kept)

pub charge_delivery-Keeps :
    (ctx : Context) (cart : Cart) (after : ℤ) (q : Quote)
    → Keeps q (charge_delivery ctx cart after q)
unfolding charge_delivery
charge_delivery-Keeps ctx cart after q = search (if-Keeps, charged, check_minimum-Keeps, kept)

pub add_tip-Keeps :
    (t : Tips) (cart : Cart) (after : ℤ) (q : Quote) → Keeps q (add_tip t cart after q)
unfolding add_tip
add_tip-Keeps t cart after q = search (if-Keeps, kept)

sum_discounts-append :
    (ds es : List Discount) → sum_discounts (ds ++ es) ≡ sum_discounts ds +ℤ sum_discounts es
unfolding sum_discounts
sum_discounts-append [] es = omega int_laws
sum_discounts-append (d ∷ ds) es = omega (int_laws, parts_of_eq _ _ (sum_discounts-append ds es))

-- What there is less what came off.
abbrev Left : ℤ → Quote × ℤ → Type 0
Left n (q, left) = left +ℤ sum_discounts q.discounts ≡ n

if-Left : (n : ℤ) (b : Bool) (x y : Quote × ℤ) → Left n x → Left n y → Left n (if b then x else y)
if-Left n true x y p p' = p
if-Left n false x y p p' = p'

add_discount-Left :
    (left : ℤ) (d : Discount) (q : Quote)
    → Left (left +ℤ sum_discounts q.discounts) (add_discount d q, left -ℤ d.amount_cents)
unfolding sum_discounts
add_discount-Left left d q =
    omega (int_laws, parts_of_eq _ _ (sum_discounts-append q.discounts (d ∷ [])))

-- What cash takes off is one more discount.
take_cash-Left :
    (st : Settings) (cart : Cart) (left : ℤ) (q : Quote)
    → Left (left +ℤ sum_discounts q.discounts) (take_cash st cart left q)
unfolding take_cash
take_cash-Left st cart left q = if-Left _ _ _ _ (add_discount-Left left _ q) refl

Keeps-sum : (q r : Quote) → Keeps q r → sum_discounts r.discounts ≡ sum_discounts q.discounts
Keeps-sum q r k = ap sum_discounts k.discounts

pub add_charges-total :
    (ctx : Context) (cart : Cart) (line_tax : List Taxed) (q : Quote) (left : ℤ)
    → let r = add_charges ctx cart line_tax q left in
      r.total_cents +ℤ sum_discounts r.discounts
      ≡ left
        +ℤ sum_discounts q.discounts
        +ℤ r.delivery_fee_cents
        +ℤ r.service_fee_cents
        +ℤ r.tax_cents
        +ℤ r.tip_cents
        +ℤ r.card_fee_cents
unfolding add_charges
add_charges-total ctx cart line_tax q left =
    let st = ctx.settings in
    let q1 = charge_delivery ctx cart left (check_type cart ctx.types q) in
    let k =
      Keeps-trans q _ q1 (check_type-Keeps cart ctx.types q)
        (charge_delivery-Keeps ctx cart left _) in
    let (q2, after) = take_cash ctx.settings cart left q1 in
    let fee = service_fee st after (not (is_empty q2.lines)) in
    let q3 : Quote = record q2 {
      service_fee_cents = fee;
      tax_cents = tax st q2.subtotal_cents after fee line_tax;
    } in
    let t = add_tip-Keeps st.tips cart after q3 in
    omega (
      int_laws,
      parts_of_eq _ _ (Keeps-sum q q1 k),
      parts_of_eq _ _ (Keeps-sum q3 _ t),
      parts_of_eq _ _ (take_cash-Left ctx.settings cart left q1),
    )
