-- ===== src/Pricing/Examples.antt =====
-- backend/internal/domain/pricing: carts at a small store, priced.
use posserver.Prelude.{
  insert, ◌+◌, ◌-◌, ◌%◌, ◌<◌, ◌≡◌, refl, ◌↔◌, ◌⊎◌, true, false, none, some, List, [], ◌∷◌, arith,
  contains, lookup,
}
use posserver.Prelude.Int.{pos, ◌+ℤ◌, ◌-ℤ◌, ◌*ℤ◌, ◌≤ℤ◌, neg_ℤ, quot_ℤ, ◌<ℤ◌, sum_ℤ}
use posserver.MenuView.Types.{BuildItem}
use posserver.Pricing.Types.{
  World, Context, Cart, Line, Deal, Settings, best, nth, Discount, deal, code, cash_discount,
}
use posserver.Pricing.Live.{pct, in_window, is_empty}
use posserver.Pricing.Deals.{cap_discounts, pick_one, best_auto}
use posserver.Pricing.Charges.{sum_discounts, shares, sorted_rates}
use posserver.Pricing.Quote.{no_quote, price_cart, sum_lines, draft, apply_deals, add_up}
use posserver.Pricing.Quote.{add_charges}
use posserver.Pricing.Item.{rate, price, price_item, new_engine}
use posserver.Pricing.Lines.{draft_lines, clamp_qty}
use posserver.Pricing.Live.{live, scheduled, matches}
use posserver.Pricing.Deals.{auto_deals, promo, stack_deals}
use posserver.Pricing.Charges.{
  check_type, charge_delivery, take_cash, service_fee, tax, add_tip, card_fee,
}
use posserver.Prelude.Sort.{sort_stable}
use posserver.Prelude.Strings.{trim_space, to_upper}
use posserver.Pricing.Capped.{AreNonneg}
use posserver.Pricing.Nonneg.{AreAccepted}
use posserver.Pricing.Taken.{apply_deals-AreNonneg}
use posserver.Pricing.Balance.{price_cart-adds_up}
use posserver.Pricing.Choice.{IsBest, pick_one-IsBest}
use posserver.Pricing.Window.{window, in_window_cyclic}
use posserver.Pricing.Spread.{taxed_food}
use posserver.Pricing.Matched.{draft-shared_all}
use posserver.Pricing.Types.{Stacking, CardFeeMode}
use posserver.Pricing.Live.{UnitPrice}
use posserver.Pricing.Deals.{auto_amount}
use posserver.Pricing.Settings.{
  StoreSettings, KindOverride, validate_store, validate_sets, validate_override, valid_sets,
  fees_error, tips_error, card_error, effective,
}
use posserver.Pricing.DealRules.{kind_error, validate_deal, check_kind}
use posserver.Pricing.Ranges.{IsInRange, effective-IsInRange}
use posserver.Pricing.Amounts.{Covered, auto_amount-Covered}
use posserver.Pricing.Clean.{IsTaken, price_cart-IsOrderable}

abbrev world : World
world = record { zones = λ tz. none; tables = record { upper = λ c. c; lower = λ c. c } }

abbrev pizza : BuildItem
pizza = record {
  id = "pizza";
  name = "Pizza";
  description = "";
  photo = "";
  anchor = record { item_ids = "pizza" ∷ []; size_id = none };
  price_cents = pos 1500;
  sizes = [];
  sold_out = false;
  modifier_group_ids = [];
  choices = [];
  position = pos 0;
}

abbrev settings : Settings
settings = record {
  tax_bps = pos 800;
  service_fee_cents = pos 100;
  service_fee_bps = pos 0;
  delivery_fee_cents = pos 300;
  free_delivery_over_cents = none;
  delivery_min_cents = pos 1000;
  tips = record { enabled = true; presets = []; default_pct = pos 10 };
  card_fee = record { mode = cash_discount; bps = pos 200 };
  stacking = best;
}

-- Every second pizza at half price.
abbrev second_half : Deal
second_half = record {
  id = "d1";
  kind = nth;
  name = "Second half";
  description = "";
  active = true;
  fulfil = "both";
  schedule = none;
  price_cents = pos 0;
  slots = [];
  eligible = some (record { items = "pizza" ∷ []; categories = []; sizes = [] });
  qty = pos 0;
  each_cents = pos 0;
  n = pos 2;
  pct = pos 50;
  code = "";
  amount_cents = pos 0;
  first_order_only = false;
  min_subtotal_cents = pos 0;
}

abbrev store : Context
store = record {
  menu = record {
    categories = record { key = "c"; name = "Pizzas"; position = pos 0; items = pizza ∷ [] } ∷ [];
    modifier_groups = [];
  };
  items = ("pizza", record { category_id = "c"; tax_bps = pos 1000 }) ∷ [];
  settings = settings;
  deals = second_half ∷ [];
  timezone = "UTC";
  types = record { pickup = true; delivery = true };
}

abbrev two_pizzas : Line
two_pizzas = record {
  selection = record { item_id = "pizza"; choice_id = ""; size_id = ""; options = [] };
  qty = pos 2;
  note = "";
  deal_id = "";
  picks = [];
}

abbrev cart : Cart
cart = record {
  type = "delivery";
  payment = "cash";
  lines = two_pizzas ∷ [];
  code = "";
  tip_cents = none;
  tip_pct = none;
  first_order = none;
}

total : (price_cart world store cart 0).total_cents ≡ pos 3055
unfolding price_cart draft sum_lines add_up apply_deals add_charges price price_item new_engine
    draft_lines clamp_qty live scheduled pct matches auto_deals promo stack_deals cap_discounts
    check_type charge_delivery take_cash service_fee tax add_tip card_fee sum_discounts sort_stable
    lookup insert trim_space to_upper contains rate ◌+ℤ◌ ◌-ℤ◌ ◌*ℤ◌ quot_ℤ neg_ℤ sum_ℤ
total = refl

price_cart-adds_up_example :
    let q = price_cart world store cart 0 in
    (q.subtotal_cents ≡ sum_lines q.lines)
    × (q.total_cents +ℤ sum_discounts q.discounts
        ≡ q.subtotal_cents +ℤ q.delivery_fee_cents +ℤ q.service_fee_cents +ℤ q.tax_cents
          +ℤ q.tip_cents +ℤ q.card_fee_cents)
price_cart-adds_up_example = price_cart-adds_up world store cart 0

some_food : pos 0 <ℤ sum_lines (draft world store cart 0).quote.lines
unfolding price_cart draft sum_lines add_up apply_deals add_charges price price_item new_engine
    draft_lines clamp_qty live scheduled pct matches auto_deals promo stack_deals cap_discounts
    check_type charge_delivery take_cash service_fee tax add_tip card_fee sum_discounts sort_stable
    lookup insert trim_space to_upper contains rate ◌+ℤ◌ ◌-ℤ◌ ◌*ℤ◌ quot_ℤ neg_ℤ sum_ℤ
some_food = ground arith

draft-shared_all_example :
    let d = draft world store cart 0 in
    let rates = sorted_rates d.line_tax in
    taxed_food rates
      (shares (sum_lines d.quote.lines) (sum_lines d.quote.lines -ℤ pos 2205) (pos 0) rates)
    ≡ pos 2205
draft-shared_all_example = draft-shared_all world store cart 0 (pos 2205) some_food

no_errors : (price_cart world store cart 0).errors ≡ []
unfolding price_cart draft sum_lines add_up apply_deals add_charges price price_item new_engine
    draft_lines clamp_qty live scheduled pct matches auto_deals promo stack_deals cap_discounts
    check_type charge_delivery take_cash service_fee tax add_tip card_fee sum_discounts sort_stable
    lookup insert trim_space to_upper contains rate ◌+ℤ◌ ◌-ℤ◌ ◌*ℤ◌ quot_ℤ neg_ℤ sum_ℤ
no_errors = refl

price_cart-IsOrderable_example :
    (is_empty (price_cart world store cart 0).lines ≡ false)
    × IsTaken cart store.types
    × (cart.type ≡ "delivery"
        → pos 1000
          ≤ℤ (apply_deals world store cart 0
              (draft world store cart 0)
              (add_up (draft world store cart 0).quote)).1)
price_cart-IsOrderable_example = price_cart-IsOrderable world store cart 0 no_errors

nothing_off_yet : (add_up (draft world store cart 0).quote).discounts ≡ []
unfolding draft add_up price price_item new_engine draft_lines clamp_qty live scheduled matches
    lookup insert trim_space to_upper contains rate sum_lines
nothing_off_yet = refl

food_so_far : pos 0 ≤ℤ (add_up (draft world store cart 0).quote).subtotal_cents
unfolding price_cart draft sum_lines add_up apply_deals add_charges price price_item new_engine
    draft_lines clamp_qty live scheduled pct matches auto_deals promo stack_deals cap_discounts
    check_type charge_delivery take_cash service_fee tax add_tip card_fee sum_discounts sort_stable
    lookup insert trim_space to_upper contains rate ◌+ℤ◌ ◌-ℤ◌ ◌*ℤ◌ quot_ℤ neg_ℤ sum_ℤ
food_so_far = ground arith

accepted : AreAccepted store.deals
unfolding kind_error
accepted = (refl, tt)

apply_deals-AreNonneg_example :
    let r =
      apply_deals world store cart 0
        (draft world store cart 0)
        (add_up (draft world store cart 0).quote) in
    AreNonneg r.0.discounts
    × (pos 0 ≤ℤ r.1)
    × (r.1 +ℤ sum_discounts r.0.discounts
        ≡ (add_up (draft world store cart 0).quote).subtotal_cents)
apply_deals-AreNonneg_example =
    apply_deals-AreNonneg world store cart 0 (draft world store cart 0)
      (add_up (draft world store cart 0).quote) accepted food_so_far nothing_off_yet

abbrev ten_off : Discount
ten_off = record { type = code; deal_id = "c1"; label = "Code TEN"; amount_cents = pos 1000 }

abbrev half_off : Discount
half_off = record { type = deal; deal_id = "d1"; label = "Second half"; amount_cents = pos 750 }

pick_one-IsBest_example :
    let r = pick_one (best_auto none (half_off ∷ [])) (some ten_off) no_quote in
    ((half_off ∷ [] ≡ []) × (some ten_off ≡ none) × (r ≡ no_quote))
    ⊎ ((x : Discount) × IsBest (half_off ∷ []) (some ten_off) x × (r.discounts ≡ x ∷ []))
pick_one-IsBest_example = pick_one-IsBest (half_off ∷ []) (some ten_off) no_quote

-- From 22:00 to 02:00, at one in the morning.
in_window_cyclic_example :
    (in_window (some 1320) (some 120) 60 ≡ true) ↔ ((60 + 1440 - 1320) % 1440 < window 1320 120)
in_window_cyclic_example = in_window_cyclic 1320 120 60 (ground arith) (ground arith) (ground arith)

abbrev store_settings : StoreSettings
store_settings = record {
  tax_bps = pos 600;
  stacking = Stacking.other "";
  fees = record {
    service_fee_cents = pos 0;
    service_fee_bps = pos 0;
    delivery_fee_cents = pos 300;
    free_delivery_over_cents = none;
    delivery_min_cents = pos 0;
  };
  tips = settings.tips;
  card_fee = record { mode = CardFeeMode.other ""; bps = pos 0 };
}

abbrev no_override : KindOverride
no_override = record { fees = none; tips = none; card_fee = none }

store_accepted : (validate_store store_settings).0 ≡ none
unfolding validate_store validate_sets valid_sets fees_error tips_error card_error
store_accepted = refl

override_accepted : (validate_override no_override).0 ≡ none
unfolding validate_override valid_sets fees_error tips_error card_error
override_accepted = refl

effective-IsInRange_example :
    IsInRange (effective (validate_store store_settings).1 (validate_override no_override).1)
effective-IsInRange_example =
    effective-IsInRange store_settings no_override store_accepted override_accepted

deal_accepted : (validate_deal world second_half).0 ≡ none
unfolding validate_deal check_kind trim_space
deal_accepted = refl

abbrev slices : List UnitPrice
slices =
    record { price = pos 1500; item = "pizza"; category = "c"; size = "" }
    ∷ record { price = pos 900; item = "pizza"; category = "c"; size = "" }
    ∷ []

auto_amount-Covered_example :
    let d = (validate_deal world second_half).1 in
    Covered slices (auto_amount d.kind d (pos 2400) slices no_quote).0
auto_amount-Covered_example =
    auto_amount-Covered world second_half (pos 2400) slices no_quote deal_accepted
      (ground arith, (ground arith, tt))
