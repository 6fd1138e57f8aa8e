-- ===== src/Pricing/Deals.antt =====
-- backend/internal/domain/pricing/engine.go, `Price`: the automatic deals, the promo code, and which
-- of them the order gets.
use posserver.Prelude.{
  ℕ, zero, suc, ◌-◌, ◌%◌, String, Bool, true, false, not, ◌&&◌, Option, none, some, List, [], ◌∷◌,
  ◌++◌, ltb, ◌==◌, if◌then◌else◌, length, str_eq, ◌<>◌,
}
use posserver.Prelude.Int.{ℤ, pos, pos_part, ◌+ℤ◌, ◌-ℤ◌, ◌*ℤ◌, ltb_ℤ, leb_ℤ, eq_ℤ}
use posserver.Prelude.Sort.{sort_stable}
use posserver.Prelude.Strings.{trim_space, to_upper}
use posserver.Order.Types.{Time}
use posserver.Pricing.Types.{
  Context, Cart, Deal, DealKind, Stacking, stack, single, mix, nth, promo_code, free_item, Eligible,
  Quote, Discount, deal, code, code_invalid, code_minimum, code_first_order, code_not_combinable,
  World,
}
use posserver.Pricing.Live.{pct, money, live, matches, UnitPrice}
use posserver.Pricing.Lines.{add_error, add_nudge}

unfoldable pub eligible_units : Eligible → List UnitPrice → List UnitPrice
eligible_units el [] = []
eligible_units el (u ∷ us) =
    let rest = eligible_units el us in if matches el u then u ∷ rest else rest

-- What the units are above `each`.
unfoldable pub mix_amount : ℤ → List UnitPrice → ℤ
mix_amount each [] = pos 0
mix_amount each (u ∷ us) =
    (if ltb_ℤ each u.price then u.price -ℤ each else pos 0) +ℤ mix_amount each us

-- The share off every `n`th unit, `wait` units from here: the loop over k = n-1, 2n-1, ….
unfoldable pub nth_amount : ℤ → ℕ → ℕ → List UnitPrice → ℤ
nth_amount bps n wait [] = pos 0
nth_amount bps n zero (u ∷ us) = pct u.price bps +ℤ nth_amount bps n (n - 1) us
nth_amount bps n (suc wait) (u ∷ us) = nth_amount bps n wait us

unfoldable pub cheapest : ℤ → List UnitPrice → ℤ
cheapest amount [] = amount
cheapest amount (u ∷ us) = cheapest (if ltb_ℤ u.price amount then u.price else amount) us

unfoldable pub mix_deal : Deal → List UnitPrice → Quote → ℤ × Quote
unfolding mix_amount
mix_deal d el q =
    if ltb_ℤ (pos 0) d.qty && leb_ℤ d.qty (pos (length el))
    then (mix_amount d.each_cents el, q)
    else if ltb_ℤ (pos 0) d.qty && eq_ℤ (pos (length el)) (d.qty -ℤ pos 1)
    then (
      pos 0,
      add_nudge ("Add 1 more for " <> d.name <> ": " <> money d.each_cents <> " each.") q,
    )
    else (pos 0, q)

unfoldable pub nth_deal : Deal → List UnitPrice → Quote → ℤ × Quote
unfolding nth_amount
nth_deal d el q =
    if ltb_ℤ d.n (pos 1)
    then (pos 0, q)
    else (let n = pos_part d.n in
        let sorted = sort_stable (λ a b. ltb_ℤ b.price a.price) el in
        (
          nth_amount (d.pct *ℤ pos 100) n (n - 1) sorted,
          if ltb 1 n && length el % n == n - 1
              then add_nudge ("Add 1 more for " <> d.name <> ".") q
              else q,
        ))

unfoldable pub free_item_deal : Deal → ℤ → List UnitPrice → Quote → ℤ × Quote
unfolding cheapest
free_item_deal d sub [] q = (pos 0, q)
free_item_deal d sub (u ∷ us) q =
    if leb_ℤ d.min_subtotal_cents sub then (cheapest u.price (u ∷ us), q) else (
      pos 0,
      add_nudge ("Add " <> money (d.min_subtotal_cents -ℤ sub) <> " more for " <> d.name <> ".") q,
    )

-- The switch on the kind.
unfoldable pub auto_amount : DealKind → Deal → ℤ → List UnitPrice → Quote → ℤ × Quote
unfolding mix_deal nth_deal free_item_deal
auto_amount mix d sub el q = mix_deal d el q
auto_amount nth d sub el q = nth_deal d el q
auto_amount free_item d sub el q = free_item_deal d sub el q
auto_amount _ d sub el q = (pos 0, q)

unfoldable pub auto_if : Deal → ℤ → List UnitPrice → Option Eligible → Quote → ℤ × Quote
unfolding auto_amount eligible_units
auto_if d sub units none q = (pos 0, q)
auto_if d sub units (some el) q = auto_amount d.kind d sub (eligible_units el units) q

unfoldable pub auto_deal :
    World
    → Context
    → Cart
    → Time
    → ℤ
    → List UnitPrice
    → Deal
    → Quote × List Discount
    → Quote × List Discount
unfolding auto_if
auto_deal w ctx cart at sub units d (q, autos) =
    if not (live w d ctx.timezone at cart.type)
    then (q, autos)
    else (let (amount, q') = auto_if d sub units d.eligible q in
        (
          q',
          if ltb_ℤ (pos 0) amount
              then autos
                ++ record { type = deal; deal_id = d.id; label = d.name; amount_cents = amount }
                  ∷ []
              else autos,
        ))

unfoldable pub auto_deals :
    World
    → Context
    → Cart
    → Time
    → ℤ
    → List UnitPrice
    → List Deal
    → Quote × List Discount
    → Quote × List Discount
unfolding auto_deal
auto_deals w ctx cart at sub units [] st = st
auto_deals w ctx cart at sub units (d ∷ ds) st =
    auto_deals w ctx cart at sub units ds (auto_deal w ctx cart at sub units d st)

abbrev pub is_code : DealKind → Bool
is_code promo_code = true
is_code _ = false

abbrev is_no : Option Bool → Bool
is_no none = false
is_no (some b) = not b

-- The last code deal of the text.
unfoldable pub find_code : World → String → Option Deal → List Deal → Option Deal
find_code w c found [] = found
find_code w c found (d ∷ ds) =
    find_code w c
      (if is_code d.kind && str_eq (to_upper w.tables (trim_space d.code)) c then some d else found)
      ds

-- What a code takes off, never more than the food.
unfoldable pub code_amount : Deal → ℤ → ℤ
code_amount d sub =
    let amt = if ltb_ℤ (pos 0) d.pct then pct sub (d.pct *ℤ pos 100) else d.amount_cents in
    if ltb_ℤ sub amt then sub else amt

unfoldable pub use_code :
    World → Context → Cart → Time → ℤ → String → Option Deal → Quote → Quote × Option Discount
unfolding code_amount
use_code w ctx cart at sub c none q =
    (add_error code_invalid ("Code " <> c <> " isn't valid right now.") none q, none)
use_code w ctx cart at sub c (some d) q =
    if not (live w d ctx.timezone at cart.type)
    then (add_error code_invalid ("Code " <> c <> " isn't valid right now.") none q, none)
    else if ltb_ℤ sub d.min_subtotal_cents
    then (
      add_error code_minimum (c <> " needs " <> money d.min_subtotal_cents <> " or more.") none q,
      none,
    )
    else if d.first_order_only && is_no cart.first_order
    then (add_error code_first_order (c <> " is for a first order only.") none q, none)
    else (
      q,
      some (record {
        type = code;
        deal_id = d.id;
        label = "Code " <> c;
        amount_cents = code_amount d sub;
      }),
    )

-- The promo code of the cart.
unfoldable pub promo : World → Context → Cart → Time → ℤ → Quote → Quote × Option Discount
unfolding use_code find_code
promo w ctx cart at sub q =
    let c = to_upper w.tables (trim_space cart.code) in
    if str_eq c "" then (q, none) else use_code w ctx cart at sub c (find_code w c none ctx.deals) q

abbrev higher : Discount → Option Discount → Option Discount
higher d none = some d
higher d (some b) = if ltb_ℤ b.amount_cents d.amount_cents then some d else some b

-- The closure `best`: the first of the highest.
unfoldable pub best_auto : Option Discount → List Discount → Option Discount
best_auto b [] = b
best_auto b (d ∷ ds) = best_auto (higher d b) ds

abbrev pub add_discount : Discount → Quote → Quote
add_discount d q = record q { discounts = q.discounts ++ d ∷ [] }

abbrev pub add_warning : String → Quote → Quote
add_warning m q = record q { warnings = q.warnings ++ m ∷ [] }

-- The closure `pickOne`.
unfoldable pub pick_one : Option Discount → Option Discount → Quote → Quote
pick_one (some auto) (some c) q =
    if leb_ℤ auto.amount_cents c.amount_cents
    then add_warning ("Your code saves more than " <> auto.label <> ", so we used the code.")
        (add_discount c q)
    else add_warning (auto.label <> " saves more than your code, so we kept the deal.")
        (add_discount auto q)
pick_one (some auto) none q = add_discount auto q
pick_one none (some c) q = add_discount c q
pick_one none none q = q

unfoldable pub add_code : Option Discount → Quote → Quote
add_code none q = q
add_code (some c) q = add_discount c q

unfoldable pub refuse_code : Option Discount → Quote → Quote
refuse_code none q = q
refuse_code (some c) q = add_error code_not_combinable "Codes don't combine with deals." none q

-- The switch on `Stacking`.
unfoldable pub stack_deals : Stacking → Bool → List Discount → Option Discount → Quote → Quote
unfolding best_auto pick_one add_code refuse_code
stack_deals stack has_bundle autos c q = add_code c (record q { discounts = q.discounts ++ autos })
stack_deals single has_bundle autos c q =
    if has_bundle then refuse_code c q else pick_one (best_auto none autos) c q
stack_deals _ has_bundle autos c q = pick_one (best_auto none autos) c q

-- "Never more off than the food": the discounts, each cut to what is left, and what is left then.
unfoldable pub cap_discounts : ℤ → List Discount → List Discount × ℤ
cap_discounts left [] = ([], left)
cap_discounts left (d ∷ ds) =
    let amount = if ltb_ℤ left d.amount_cents then left else d.amount_cents in
    let rest = cap_discounts (left -ℤ amount) ds in
    (record d { amount_cents = amount } ∷ rest.0, rest.1)
