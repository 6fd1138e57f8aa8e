-- ===== src/Order/Examples.antt =====
-- backend/internal/domain/order: an order's life, call by call.
use posserver.Prelude.{
  String, ◌≡◌, refl, ◌≢◌, ◌↔◌, inl, true, false, none, some, [], ◌∷◌, ◌++◌, arith,
}
use posserver.Prelude.Int.{pos, ◌+ℤ◌, ◌-ℤ◌}
use posserver.Order.Types.{Time, MoneyBreakdown, LineItems, LineItem}
use posserver.Order.Status.{
  is_terminal, status_eq, valid_transitions, Status, received, validated, rejected, ready,
  on_delivery, cancelled,
}
use posserver.Order.Aggregate.{
  money_reconciles, sum_fees, sum_discounts, status_mem, Order, Ambient, NewOrderInput, ok,
  new_order, built, record_event, order_received, snapshot, transition, move_to, announce,
}
use posserver.Order.Floor.{
  FloorUpdate, NotDeliveredUpdate, applied, stale, time_of, apply_floor_update, apply_not_delivered,
}
use posserver.Order.Edges.{transition-⟶, ⟶-transition, ◌⟶◌, validate, entry}
use posserver.Order.History.{born, lived, floored, returned, IsChained, Life-IsChained}
use posserver.Order.Forward.{apply_floor_update_comm}
use posserver.Order.Replay.{apply_floor_update_again}
use posserver.Order.Returned.{accepts, return_status, apply_not_delivered_cases}
use posserver.Order.Announced.{Tells, apply_floor_update-Tells, apply_not_delivered-Tells}
use posserver.Order.Intake.{IsAcceptable, IsReceived, new_order_iff}
use posserver.Order.Closed.{here, next, Reach-IsClosed}

abbrev clock : Ambient
clock = record { at = 900; now = 1000; occurred = 1001; order_id = "o1"; event_id = "e1" }

-- 21.60 in all: 20.00, tax 1.60, a fee of 1.00 and 1.00 off.
abbrev money : MoneyBreakdown
money = record {
  subtotal = pos 2000;
  tax = pos 160;
  tip = pos 0;
  fees = record { type = "service"; label = "Service"; amount = pos 100 } ∷ [];
  discounts = record { type = "promo"; code = "ONE"; label = "One off"; amount = pos 100 } ∷ [];
  total = pos 2160;
}

abbrev pizza : LineItem
pizza =
    LineItem.line_item
      (record {
        id = "i1";
        parent_id = none;
        position = pos 0;
        sku = "";
        name = "Pizza";
        size = "Large";
        quantity = pos 1;
        unit_price = pos 2000;
        line_total = pos 2000;
        notes = "";
        menu_item_id = none;
        printer_id = none;
        routing = "kitchen";
      })
      LineItems.nil

abbrev input : NewOrderInput
input = record {
  tenant_id = "t1";
  location_id = "l1";
  source = "web";
  source_event_id = "s1";
  source_status = "new";
  customer = record { display_name = "Ann"; email = ""; phone = "555"; external_id = "" };
  fulfillment = record { type = "delivery"; address = none; promised_at = none; table_id = "" };
  items = LineItems.cons pizza LineItems.nil;
  money = money;
  currency = "USD";
  payments = [];
  placed_at = 800;
  notes = "";
  source_metadata = [];
  raw_payload = [];
  channel = none;
}

abbrev pub made : Order
made = record_event clock (order_received (snapshot (built clock input))) (built clock input)

makes_order : new_order clock input ≡ ok made
unfolding new_order money_reconciles ◌-ℤ◌ ◌+ℤ◌ sum_fees sum_discounts
makes_order = refl

new_order_iff_example :
    IsAcceptable input ↔ ((o : Order) × (new_order clock input ≡ ok o) × IsReceived clock input o)
new_order_iff_example = new_order_iff clock input

acceptable : IsAcceptable input
unfolding record_event built snapshot
acceptable = new_order_iff_example.1 (made, makes_order, (refl, refl, refl))

abbrev closing : String
closing = "closed"

abbrev no_reason : String
no_reason = ""

abbrev refused : Order
refused =
    announce clock received "clerk" closing (move_to made rejected clock.now "clerk" "u1" closing)

refuses : transition clock made rejected "clerk" "u1" closing ≡ ok refused
unfolding transition is_terminal status_eq built valid_transitions status_mem
refuses = refl

transition-⟶_example :
    (received ⟶ rejected)
    × (refused.status ≡ rejected)
    × (refused.status_history
        ≡ made.status_history ++ entry made rejected clock "clerk" "u1" closing ∷ [])
    × (rejected ≡ cancelled → closing ≢ no_reason)
unfolding built announce record_event move_to
transition-⟶_example = transition-⟶ clock made rejected "clerk" "u1" closing refuses

no_cancel : validated ≡ cancelled → no_reason ≢ no_reason
no_cancel h = ground arith

⟶-transition_example : (o : Order) × (transition clock made validated "clerk" "u1" no_reason ≡ ok o)
unfolding built record_event
⟶-transition_example = ⟶-transition clock made validated "clerk" "u1" no_reason validate no_cancel

abbrev update : Status → Time → String → FloorUpdate
update s at driver = record {
  status = s;
  kitchen_number = some 12;
  estimated_ready_at = none;
  driver_name = driver;
  at = at;
  auto = false;
}

abbrev out : Order
out = (apply_floor_update clock (update on_delivery 1200 "Bob") made).1

abbrev back : NotDeliveredUpdate
back = record { action = "retry"; at = 1300; auto = false }

Life-IsChained_example : IsChained (apply_not_delivered clock back out).1
Life-IsChained_example = Life-IsChained (
    lived (lived (born clock input makes_order) (floored clock (update on_delivery 1200 "Bob")))
      (returned clock back))

apply_floor_update_comm_example :
    (apply_floor_update clock (update ready 1100 "") out).1.status
    ≡ (apply_floor_update clock
        (update on_delivery 1200 "Bob")
        (apply_floor_update clock (update ready 1100 "") made).1).1.status
apply_floor_update_comm_example =
    apply_floor_update_comm clock clock clock clock (update on_delivery 1200 "Bob")
      (update ready 1100 "") made (ground arith) (ground arith)

apply_floor_update_again_example :
    apply_floor_update clock (update on_delivery 1200 "Bob") out ≡ (stale, out)
apply_floor_update_again_example =
    apply_floor_update_again clock clock (update on_delivery 1200 "Bob") made (ground arith)

apply_floor_update-Tells_example :
    Tells made (apply_floor_update clock (update on_delivery 1200 "Bob") made)
apply_floor_update-Tells_example =
    apply_floor_update-Tells clock (update on_delivery 1200 "Bob") made

apply_not_delivered-Tells_example : Tells out (apply_not_delivered clock back out)
apply_not_delivered-Tells_example = apply_not_delivered-Tells clock back out

apply_not_delivered_cases_example :
    let after = apply_not_delivered clock back out in
    (accepts clock back out ≡ true
      → (after.0 ≡ applied)
        × (after.1.status ≡ return_status "retry")
        × (after.1.driver_name ≡ "")
        × (after.1.floor_at ≡ some (time_of clock 1300)))
    × (accepts clock back out ≡ false → after ≡ (stale, out))
apply_not_delivered_cases_example = apply_not_delivered_cases clock back out

Reach-IsClosed_example :
    (apply_floor_update clock (update ready 1100 "") refused).1.status ≡ rejected
unfolding announce record_event move_to
Reach-IsClosed_example =
    Reach-IsClosed (inl refl) (next here (floored clock (update ready 1100 "")))
