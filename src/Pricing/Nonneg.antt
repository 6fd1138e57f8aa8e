-- ===== src/Pricing/Nonneg.antt =====
-- backend/internal/domain/pricing: the automatic discounts and the code's, with deals that `Validate`
-- accepts.
use posserver.Prelude.{
  ◌+◌, ◌*◌, String, ◌≡◌, refl, Bool, true, false, not, ◌&&◌, Option, none, some, List, [], ◌∷◌,
  ◌++◌, arith, if◌then◌else◌, str_eq,
}
use posserver.Prelude.Int.{ℤ, pos, negsuc, ◌*ℤ◌, ◌≤ℤ◌, ltb_ℤ, ◌<ℤ◌}
use posserver.Prelude.Strings.{to_upper, trim_space}
use posserver.Pricing.Types.{deal}
use posserver.Pricing.Live.{live}
use posserver.Order.Types.{Time}
use posserver.Pricing.Types.{Deal, Quote, World, Context, Cart, Discount}
use posserver.Pricing.Live.{UnitPrice, pct}
use posserver.Pricing.Deals.{
  is_code, auto_if, auto_deal, auto_deals, find_code, code_amount, use_code, promo, best_auto,
}
use posserver.Pricing.DealRules.{kind_error}
use posserver.Pricing.Rounding.{pct_nearest}
use posserver.Pricing.Capped.{AreNonneg}

-- Each deal passes the check of its kind.
abbrev pub AreAccepted : List Deal → Type 0
AreAccepted [] = Unit
AreAccepted (d ∷ ds) = (kind_error d.kind d ≡ none) × AreAccepted ds

pub AreNonneg-append : (ds es : List Discount) → AreNonneg ds → AreNonneg es → AreNonneg (ds ++ es)
AreNonneg-append [] es p q = q
AreNonneg-append (d ∷ ds) es (p, ps) q = (p, AreNonneg-append ds es ps q)

if-AreNonneg :
    (b : Bool) (ds es : List Discount)
    → (b ≡ true → AreNonneg ds)
    → AreNonneg es
    → AreNonneg (if b then ds else es)
if-AreNonneg true ds es p q = p refl
if-AreNonneg false ds es p q = q

-- Only what is above 0 is an automatic discount.
pub record AutosNonneg (r : Quote × List Discount) : Type 0 where
  pub autos : AreNonneg r.1

if-AutosNonneg :
    (b : Bool) (x y : Quote × List Discount)
    → AutosNonneg x
    → AutosNonneg y
    → AutosNonneg (if b then x else y)
if-AutosNonneg true x y p q = p
if-AutosNonneg false x y p q = q

above_zero : (n : ℤ) → ltb_ℤ (pos 0) n ≡ true → pos 0 ≤ℤ n
above_zero n h = ground arith

auto_deal-AutosNonneg :
    (w : World) (ctx : Context) (cart : Cart) (at : Time) (sub : ℤ) (units : List UnitPrice)
    (d : Deal) (q : Quote) (autos : List Discount)
    → AreNonneg autos
    → AutosNonneg (auto_deal w ctx cart at sub units d (q, autos))
unfolding auto_deal
auto_deal-AutosNonneg w ctx cart at sub units d q autos p =
    let r = auto_if d sub units d.eligible q in
    let taken : Discount = record {
      type = deal;
      deal_id = d.id;
      label = d.name;
      amount_cents = r.0;
    } in
    let more = autos ++ taken ∷ [] in
    if-AutosNonneg (not (live w d ctx.timezone at cart.type)) (q, autos)
      (r.1, if ltb_ℤ (pos 0) r.0 then more else autos) (record { autos = p })
      (record {
        autos =
            if-AreNonneg (ltb_ℤ (pos 0) r.0) more autos
              (λ h. AreNonneg-append autos (taken ∷ []) p (above_zero r.0 h, tt)) p;
      })

pub auto_deals-AutosNonneg :
    (w : World) (ctx : Context) (cart : Cart) (at : Time) (sub : ℤ) (units : List UnitPrice)
    (ds : List Deal) (q : Quote) (autos : List Discount)
    → AreNonneg autos
    → AutosNonneg (auto_deals w ctx cart at sub units ds (q, autos))
unfolding auto_deals
auto_deals-AutosNonneg w ctx cart at sub units [] q autos p = record { autos = p }
auto_deals-AutosNonneg w ctx cart at sub units (d ∷ ds) q autos p =
    let step = auto_deal w ctx cart at sub units d (q, autos) in
    auto_deals-AutosNonneg w ctx cart at sub units ds step.0 step.1
      (auto_deal-AutosNonneg w ctx cart at sub units d q autos p).autos

-- A code deal that is found takes no negative amount off.
abbrev IsSound : Option Deal → Type 0
IsSound none = Unit
IsSound (some d) = pos 0 ≤ℤ d.amount_cents

if-IsSound :
    (b : Bool) (d : Deal) (found : Option Deal)
    → (b ≡ true → pos 0 ≤ℤ d.amount_cents)
    → IsSound found
    → IsSound (if b then some d else found)
if-IsSound true d found p q = p refl
if-IsSound false d found p q = q

code_nonneg :
    (d : Deal) → kind_error d.kind d ≡ none → is_code d.kind ≡ true → pos 0 ≤ℤ d.amount_cents
unfolding kind_error
code_nonneg d h c = ground arith

find_code-IsSound :
    (w : World) (c : String) (found : Option Deal) (ds : List Deal)
    → IsSound found
    → AreAccepted ds
    → IsSound (find_code w c found ds)
unfolding find_code
find_code-IsSound w c found [] p a = p
find_code-IsSound w c found (d ∷ ds) p (a, rest) =
    find_code-IsSound w c
      (if is_code d.kind && str_eq (to_upper w.tables (trim_space d.code)) c then some d else found)
      ds
      (if-IsSound (is_code d.kind && str_eq (to_upper w.tables (trim_space d.code)) c) d found
        (λ h. code_nonneg d a (ground arith)) p)
      rest

pct_nonneg :
    (amount bps : ℤ) → pos 0 ≤ℤ amount → pos 0 <ℤ bps → pos 0 ≤ℤ pct amount (bps *ℤ pos 100)
unfolding ◌*ℤ◌
pct_nonneg (pos a) (pos b) p q =
    ground (arith, (pct_nearest a (b * 100 + 0 * 0)).0, (pct_nearest a (b * 100)).0)
pct_nonneg (negsuc a) b p q = absurd (ground arith)
pct_nonneg (pos a) (negsuc b) p q = absurd (ground arith)

code_amount-nonneg :
    (d : Deal) (sub : ℤ) → pos 0 ≤ℤ sub → pos 0 ≤ℤ d.amount_cents → pos 0 ≤ℤ code_amount d sub
unfolding code_amount
code_amount-nonneg d sub p q = ground (arith, pct_nonneg sub d.pct p)

-- The code's discount, where there is one.
abbrev pub IsNonneg : Option Discount → Type 0
IsNonneg none = Unit
IsNonneg (some d) = pos 0 ≤ℤ d.amount_cents

pub record CodeNonneg (r : Quote × Option Discount) : Type 0 where
  pub code : IsNonneg r.1

if-CodeNonneg :
    (b : Bool) (x y : Quote × Option Discount)
    → CodeNonneg x
    → CodeNonneg y
    → CodeNonneg (if b then x else y)
if-CodeNonneg true x y p q = p
if-CodeNonneg false x y p q = q

no_discount : (q : Quote) → CodeNonneg (q, none)
no_discount q = record { code = tt }

with_code : (q : Quote) (d : Discount) → pos 0 ≤ℤ d.amount_cents → CodeNonneg (q, some d)
with_code q d p = record { code = p }

use_code-CodeNonneg :
    (w : World) (ctx : Context) (cart : Cart) (at : Time) (sub : ℤ) (c : String) (d : Option Deal)
    (q : Quote)
    → pos 0 ≤ℤ sub
    → IsSound d
    → CodeNonneg (use_code w ctx cart at sub c d q)
unfolding use_code
use_code-CodeNonneg w ctx cart at sub c none q p s = record { code = tt }
use_code-CodeNonneg w ctx cart at sub c (some d) q p s =
    search (if-CodeNonneg, no_discount, with_code, code_amount-nonneg d sub p s)

pub promo-CodeNonneg :
    (w : World) (ctx : Context) (cart : Cart) (at : Time) (sub : ℤ) (q : Quote)
    → pos 0 ≤ℤ sub
    → AreAccepted ctx.deals
    → CodeNonneg (promo w ctx cart at sub q)
unfolding promo
promo-CodeNonneg w ctx cart at sub q p a =
    let c = to_upper w.tables (trim_space cart.code) in
    let found = find_code w c none ctx.deals in
    if-CodeNonneg (str_eq c "") (q, none) (use_code w ctx cart at sub c found q) (no_discount q)
      (use_code-CodeNonneg w ctx cart at sub c found q p
        (find_code-IsSound w c none ctx.deals tt a))

pub best_auto-IsNonneg :
    (b : Option Discount) (ds : List Discount)
    → IsNonneg b
    → AreNonneg ds
    → IsNonneg (best_auto b ds)
unfolding best_auto
best_auto-IsNonneg b [] p q = p
best_auto-IsNonneg none (d ∷ ds) p (q, qs) = best_auto-IsNonneg (some d) ds q qs
best_auto-IsNonneg (some b) (d ∷ ds) p (q, qs) =
    best_auto-IsNonneg (if ltb_ℤ b.amount_cents d.amount_cents then some d else some b) ds
      (higher_nonneg (ltb_ℤ b.amount_cents d.amount_cents) d b q p) qs
  where
    higher_nonneg :
        (t : Bool) (d b : Discount)
        → pos 0 ≤ℤ d.amount_cents
        → pos 0 ≤ℤ b.amount_cents
        → IsNonneg (if t then some d else some b)
    higher_nonneg true d b x y = x
    higher_nonneg false d b x y = y
