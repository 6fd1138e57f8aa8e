-- ===== src/Pricing/Taken.antt =====
-- backend/internal/domain/pricing/engine.go, `Price`: the deals and the code against the food.
use posserver.Prelude.{
  String, ◌≡◌, ◌∙◌, Bool, true, false, Option, none, some, List, [], ◌∷◌, ◌++◌, if◌then◌else◌,
}
use mathlib.Core.Path.{subst⁻¹}
use posserver.Prelude.Int.{pos, ◌+ℤ◌, ◌≤ℤ◌}
use posserver.Order.Types.{Time}
use posserver.Pricing.Types.{Deal, DealKind, Quote, World, Context, Cart, Discount, Stacking}
use posserver.Pricing.Lines.{Drafted}
use posserver.Pricing.Deals.{
  auto_deals, promo, add_discount, add_warning, pick_one, add_code, refuse_code, stack_deals,
}
use posserver.Pricing.Charges.{sum_discounts}
use posserver.Pricing.Quote.{apply_deals}
use posserver.Pricing.Capped.{AreNonneg, cap_discounts-AreNonneg, cap_discounts-sum}
use posserver.Pricing.Totals.{add_error-Keeps}
use posserver.Pricing.Frame.{auto_deals-KeptBefore, promo-KeptBefore}
use posserver.Pricing.Types
use posserver.Pricing.Nonneg.{
  AreAccepted, AreNonneg-append, auto_deals-AutosNonneg, IsNonneg, promo-CodeNonneg,
  best_auto-IsNonneg,
}

-- No discount of the quote is negative.
record OffNonneg (q : Quote) : Type 0 where
  off : AreNonneg q.discounts

if-OffNonneg : (b : Bool) (x y : Quote) → OffNonneg x → OffNonneg y → OffNonneg (if b then x else y)
if-OffNonneg true x y p q = p
if-OffNonneg false x y p q = q

with_one :
    (q : Quote) (d : Discount)
    → AreNonneg q.discounts
    → pos 0 ≤ℤ d.amount_cents
    → AreNonneg (q.discounts ++ d ∷ [])
with_one q d p n = AreNonneg-append q.discounts (d ∷ []) p (n, tt)

added_one :
    (q : Quote) (m : String) (d : Discount)
    → AreNonneg (q.discounts ++ d ∷ [])
    → OffNonneg (add_warning m (add_discount d q))
added_one q m d p = record { off = p }

pick_one-OffNonneg :
    (auto c : Option Discount) (q : Quote)
    → IsNonneg auto
    → IsNonneg c
    → AreNonneg q.discounts
    → OffNonneg (pick_one auto c q)
unfolding pick_one
pick_one-OffNonneg (some auto) (some c) q a p n =
    search (if-OffNonneg, added_one, with_one q c n p, with_one q auto n a)
pick_one-OffNonneg (some auto) none q a p n = record { off = with_one q auto n a }
pick_one-OffNonneg none (some c) q a p n = record { off = with_one q c n p }
pick_one-OffNonneg none none q a p n = record { off = n }

add_code-OffNonneg :
    (c : Option Discount) (q : Quote)
    → IsNonneg c
    → AreNonneg q.discounts
    → OffNonneg (add_code c q)
unfolding add_code
add_code-OffNonneg none q p n = record { off = n }
add_code-OffNonneg (some d) q p n = record { off = with_one q d n p }

refuse_code-OffNonneg :
    (c : Option Discount) (q : Quote) → AreNonneg q.discounts → OffNonneg (refuse_code c q)
unfolding refuse_code
refuse_code-OffNonneg none q n = record { off = n }
refuse_code-OffNonneg (some d) q n = record {
  off = subst⁻¹ AreNonneg (add_error-Keeps _ _ _ q).discounts n;
}

nothing_off : (q : Quote) → q.discounts ≡ [] → AreNonneg q.discounts
nothing_off q e = subst⁻¹ AreNonneg e tt

stack_deals-OffNonneg :
    (s : Stacking) (has_bundle : Bool) (autos : List Discount) (c : Option Discount) (q : Quote)
    → AreNonneg autos
    → IsNonneg c
    → AreNonneg q.discounts
    → OffNonneg (stack_deals s has_bundle autos c q)
unfolding stack_deals
stack_deals-OffNonneg Types.best has_bundle autos c q a p n =
    pick_one-OffNonneg _ c q (best_auto-IsNonneg none autos tt a) p n
stack_deals-OffNonneg Types.stack has_bundle autos c q a p n =
    add_code-OffNonneg c (record q { discounts = q.discounts ++ autos }) p
      (AreNonneg-append q.discounts autos n a)
stack_deals-OffNonneg Types.single has_bundle autos c q a p n =
    if-OffNonneg _ _ _ (refuse_code-OffNonneg c q n)
      (pick_one-OffNonneg _ c q (best_auto-IsNonneg none autos tt a) p n)
stack_deals-OffNonneg (Types.Stacking.other s) has_bundle autos c q a p n =
    pick_one-OffNonneg _ c q (best_auto-IsNonneg none autos tt a) p n

-- With deals that pass the check of their kind in `Validate`, a subtotal that is not negative and no
-- discounts yet, every discount that the deals and the code leave on the quote and the food after them
-- are at least 0, and together they make up the subtotal: never more off than the food.
pub apply_deals-AreNonneg :
    (w : World) (ctx : Context) (cart : Cart) (at : Time) (d : Drafted) (q : Quote)
    → AreAccepted ctx.deals
    → pos 0 ≤ℤ q.subtotal_cents
    → q.discounts ≡ []
    → let r = apply_deals w ctx cart at d q in
      AreNonneg r.0.discounts
      × (pos 0 ≤ℤ r.1)
      × (r.1 +ℤ sum_discounts r.0.discounts ≡ q.subtotal_cents)
unfolding apply_deals
apply_deals-AreNonneg w ctx cart at d q a p e =
    let sub = q.subtotal_cents in
    let step = auto_deals w ctx cart at sub d.units ctx.deals (q, []) in
    let step2 = promo w ctx cart at sub step.0 in
    let k = (auto_deals-KeptBefore w ctx cart at sub d.units ctx.deals q []).quote in
    let l = (promo-KeptBefore w ctx cart at sub step.0).quote in
    let none_yet = nothing_off step2.0 (l.discounts ∙ k.discounts ∙ e) in
    let autos = (auto_deals-AutosNonneg w ctx cart at sub d.units ctx.deals q [] tt).autos in
    let c = (promo-CodeNonneg w ctx cart at sub step.0 p a).code in
    let all =
      (stack_deals-OffNonneg ctx.settings.stacking d.has_bundle step.1 step2.1 step2.0 autos c
        none_yet).off in
    let q3 = stack_deals ctx.settings.stacking d.has_bundle step.1 step2.1 step2.0 in
    let cut = cap_discounts-AreNonneg sub q3.discounts p all in
    (cut.0, cut.1, cap_discounts-sum sub q3.discounts)
