-- ===== src/Pricing/Frame.antt =====
-- backend/internal/domain/pricing/engine.go, `Price`: the deals and the code leave the lines and
-- their sum alone.
use posserver.Prelude.{
  ℕ, String, ◌≡◌, refl, ◌∙◌, Bool, true, false, Option, none, some, List, [], ◌∷◌, ◌++◌,
  if◌then◌else◌,
}
use posserver.Prelude.Int.{ℤ}
use posserver.Order.Types.{Time}
use posserver.Pricing.Types
use posserver.Pricing.Types.{
  other, Quote, QuoteLine, Discount, Context, Cart, World, IssueCode, OrderTypes, Settings, Tips,
  Stacking, stack, single, Deal, DealKind, Eligible,
}
use posserver.Pricing.Lines.{add_error}
use posserver.Pricing.Live.{UnitPrice}
use posserver.Pricing.Deals.{
  mix_deal, nth_deal, free_item_deal, auto_amount, auto_if, auto_deal, use_code, pick_one, add_code,
  refuse_code, auto_deals, promo, stack_deals,
}
use posserver.Pricing.Totals.{Keeps, kept, if-Keeps, Keeps-trans, add_error-Keeps, add_nudge-Keeps}

-- The same lines and subtotal.
pub record SameFood (q q' : Quote) : Type 0 where
  pub lines : q'.lines ≡ q.lines
  pub subtotal : q'.subtotal_cents ≡ q.subtotal_cents
  pub clean : q'.errors ≡ [] → q.errors ≡ []

record SameAfter {A : Type 0} (q : Quote) (x : A × Quote) : Type 0 where
  quote : Keeps q x.1

pub record KeptBefore {A : Type 0} (q : Quote) (x : Quote × A) : Type 0 where
  pub quote : Keeps q x.0

pub record SameBefore {A : Type 0} (q : Quote) (x : Quote × A) : Type 0 where
  pub food : SameFood q x.0

pub same : (q : Quote) → SameFood q q
same q = record { lines = refl; subtotal = refl; clean = λ h. h }

pub of_Keeps : (q r : Quote) → Keeps q r → SameFood q r
of_Keeps q r k = record { lines = k.lines; subtotal = k.subtotal; clean = k.clean }

pub SameFood-trans : (q r s : Quote) → SameFood q r → SameFood r s → SameFood q s
SameFood-trans q r s k l = record {
  lines = l.lines ∙ k.lines;
  subtotal = l.subtotal ∙ k.subtotal;
  clean = λ h. k.clean (l.clean h);
}

error_same :
    (c : IssueCode) (m : String) (l : Option ℕ) (q : Quote) → SameFood q (add_error c m l q)
error_same c m l q = of_Keeps q _ (add_error-Keeps c m l q)

after_same : {A : Type 0} → (q r : Quote) (a : A) → Keeps q r → SameAfter q (a, r)
after_same q r a k = record { quote = k }

before_kept : {A : Type 0} → (q r : Quote) (a : A) → Keeps q r → KeptBefore q (r, a)
before_kept q r a k = record { quote = k }

pub before_same : {A : Type 0} → (q r : Quote) (a : A) → SameFood q r → SameBefore q (r, a)
before_same q r a k = record { food = k }

if-SameFood :
    (q : Quote) (b : Bool) (x y : Quote)
    → SameFood q x
    → SameFood q y
    → SameFood q (if b then x else y)
if-SameFood q true x y p p' = p
if-SameFood q false x y p p' = p'

if-SameAfter :
    {A : Type 0}
    → (q : Quote) (b : Bool) (x y : A × Quote) → SameAfter q x
    → SameAfter q y
    → SameAfter q (if b then x else y)
if-SameAfter q true x y p p' = p
if-SameAfter q false x y p p' = p'

pub if-SameBefore :
    {A : Type 0}
    → (q : Quote) (b : Bool) (x y : Quote × A) → SameBefore q x
    → SameBefore q y
    → SameBefore q (if b then x else y)
if-SameBefore q true x y p p' = p
if-SameBefore q false x y p p' = p'

if-KeptBefore :
    {A : Type 0}
    → (q : Quote) (b : Bool) (x y : Quote × A) → KeptBefore q x
    → KeptBefore q y
    → KeptBefore q (if b then x else y)
if-KeptBefore q true x y p p' = p
if-KeptBefore q false x y p p' = p'

ruleset same_rules = (
  kept, add_error-Keeps, add_nudge-Keeps, after_same, before_kept, if-Keeps, if-SameAfter,
  if-KeptBefore,
)

mix_deal-SameAfter : (d : Deal) (el : List UnitPrice) (q : Quote) → SameAfter q (mix_deal d el q)
unfolding mix_deal
mix_deal-SameAfter d el q = search same_rules

nth_deal-SameAfter : (d : Deal) (el : List UnitPrice) (q : Quote) → SameAfter q (nth_deal d el q)
unfolding nth_deal
nth_deal-SameAfter d el q = search same_rules

free_item_deal-SameAfter :
    (d : Deal) (sub : ℤ) (el : List UnitPrice) (q : Quote) → SameAfter q (free_item_deal d sub el q)
unfolding free_item_deal
free_item_deal-SameAfter d sub [] q = search same_rules
free_item_deal-SameAfter d sub (u ∷ us) q = search same_rules

auto_amount-SameAfter :
    (k : DealKind) (d : Deal) (sub : ℤ) (el : List UnitPrice) (q : Quote)
    → SameAfter q (auto_amount k d sub el q)
unfolding auto_amount
auto_amount-SameAfter Types.bundle d sub el q = search same_rules
auto_amount-SameAfter Types.mix d sub el q = mix_deal-SameAfter d el q
auto_amount-SameAfter Types.nth d sub el q = nth_deal-SameAfter d el q
auto_amount-SameAfter Types.promo_code d sub el q = search same_rules
auto_amount-SameAfter Types.free_item d sub el q = free_item_deal-SameAfter d sub el q
auto_amount-SameAfter (Types.DealKind.other s) d sub el q = search same_rules

auto_if-SameAfter :
    (d : Deal) (sub : ℤ) (units : List UnitPrice) (el : Option Eligible) (q : Quote)
    → SameAfter q (auto_if d sub units el q)
unfolding auto_if
auto_if-SameAfter d sub units none q = search same_rules
auto_if-SameAfter d sub units (some el) q = auto_amount-SameAfter d.kind d sub _ q

auto_deal-KeptBefore :
    (w : World) (ctx : Context) (cart : Cart) (at : Time) (sub : ℤ) (units : List UnitPrice)
    (d : Deal) (q : Quote) (autos : List Discount)
    → KeptBefore q (auto_deal w ctx cart at sub units d (q, autos))
unfolding auto_deal
auto_deal-KeptBefore w ctx cart at sub units d q autos =
    if-KeptBefore q _ _ _ (before_kept q q _ (kept q))
      (before_kept q _ _ (auto_if-SameAfter d sub units d.eligible q).quote)

pub auto_deals-KeptBefore :
    (w : World) (ctx : Context) (cart : Cart) (at : Time) (sub : ℤ) (units : List UnitPrice)
    (ds : List Deal) (q : Quote) (autos : List Discount)
    → KeptBefore q (auto_deals w ctx cart at sub units ds (q, autos))
unfolding auto_deals
auto_deals-KeptBefore w ctx cart at sub units [] q autos = before_kept q q autos (kept q)
auto_deals-KeptBefore w ctx cart at sub units (d ∷ ds) q autos =
    let step = auto_deal w ctx cart at sub units d (q, autos) in
    record {
      quote =
          Keeps-trans q step.0 _ (auto_deal-KeptBefore w ctx cart at sub units d q autos).quote
            (auto_deals-KeptBefore w ctx cart at sub units ds step.0 step.1).quote;
    }

use_code-KeptBefore :
    (w : World) (ctx : Context) (cart : Cart) (at : Time) (sub : ℤ) (c : String) (d : Option Deal)
    (q : Quote)
    → KeptBefore q (use_code w ctx cart at sub c d q)
unfolding use_code
use_code-KeptBefore w ctx cart at sub c none q = search same_rules
use_code-KeptBefore w ctx cart at sub c (some d) q = search same_rules

pub promo-KeptBefore :
    (w : World) (ctx : Context) (cart : Cart) (at : Time) (sub : ℤ) (q : Quote)
    → KeptBefore q (promo w ctx cart at sub q)
unfolding promo
promo-KeptBefore w ctx cart at sub q = search (same_rules, use_code-KeptBefore)

pick_one-SameFood : (auto c : Option Discount) (q : Quote) → SameFood q (pick_one auto c q)
unfolding pick_one
pick_one-SameFood (some auto) (some c) q =
    if-SameFood q _ _ _ (record { lines = refl; subtotal = refl; clean = λ h. h })
      (record { lines = refl; subtotal = refl; clean = λ h. h })
pick_one-SameFood (some auto) none q = record { lines = refl; subtotal = refl; clean = λ h. h }
pick_one-SameFood none (some c) q = record { lines = refl; subtotal = refl; clean = λ h. h }
pick_one-SameFood none none q = same q

refuse_code-SameFood : (c : Option Discount) (q : Quote) → SameFood q (refuse_code c q)
unfolding refuse_code
refuse_code-SameFood none q = same q
refuse_code-SameFood (some c) q = error_same _ _ _ q

stacked :
    (autos : List Discount) (c : Option Discount) (q : Quote)
    → SameFood q (add_code c (record q { discounts = q.discounts ++ autos }))
unfolding add_code
stacked autos none q = record { lines = refl; subtotal = refl; clean = λ h. h }
stacked autos (some c) q = record { lines = refl; subtotal = refl; clean = λ h. h }

pub stack_deals-SameFood :
    (s : Stacking) (has_bundle : Bool) (autos : List Discount) (c : Option Discount) (q : Quote)
    → SameFood q (stack_deals s has_bundle autos c q)
unfolding stack_deals
stack_deals-SameFood Types.best has_bundle autos c q = pick_one-SameFood _ c q
stack_deals-SameFood Types.stack has_bundle autos c q = stacked autos c q
stack_deals-SameFood Types.single has_bundle autos c q =
    if-SameFood q _ _ _ (refuse_code-SameFood c q) (pick_one-SameFood _ c q)
stack_deals-SameFood (Types.Stacking.other s) has_bundle autos c q = pick_one-SameFood _ c q
