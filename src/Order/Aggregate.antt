-- ===== src/Order/Aggregate.antt =====
-- backend/internal/domain/order/entity.go and events.go: the aggregate, its construction, its
-- transitions and its pending events. The clock and the UUID generator are read where the source
-- reads them: their answers are the argument `Ambient`. A payload stands for its JSON bytes.
use posserver.Prelude.{
  ℕ, String, Bool, true, false, not, ◌&&◌, ◌||◌, Option, none, some, List, [], ◌∷◌, ◌++◌, map,
  if◌then◌else◌, str_eq,
}
use posserver.Prelude.Int.{pos, ◌+ℤ◌, ◌-ℤ◌, ltb_ℤ, leb_ℤ, neg_ℤ}
use posserver.Order.Types.{
  Time, is_zero, Uuid, nil_uuid, Json, Money, Fee, Discount, MoneyBreakdown, Fulfillment, Customer,
  LineItems, Payment, ChannelRef,
}
use posserver.Order.Status.{
  Status, received, cancelled, status_text, status_eq, StatusEvent, valid_transitions, is_terminal,
}
use posserver.Order.Snapshot.{
  Snapshot, to_payment_summary, to_money_dto, to_customer_dto, to_fulfillment_dto, to_items_dto,
}

pub record StatusChangedPayload : Type 0 where
  pub from : String
  pub to : String
  pub actor : String
  pub reason : String
  pub snapshot : Snapshot

pub data Payload : Type 0 where
  order_received : Snapshot → Payload
  order_status_changed : StatusChangedPayload → Payload

pub record DomainEvent : Type 0 where
  pub id : Uuid
  pub aggregate_id : Uuid
  pub payload : Payload
  pub occurred_at : Time
  pub schema_version : ℕ

pub record Order : Type 0 where
  pub id : Uuid
  pub tenant_id : Uuid
  pub location_id : Uuid
  pub schema_version : ℕ
  pub source : String
  pub source_event_id : String
  pub status : Status
  pub source_status : String
  pub status_history : List StatusEvent
  pub customer : Customer
  pub fulfillment : Fulfillment
  pub items : LineItems
  pub money : MoneyBreakdown
  pub currency : String
  pub placed_at : Time
  pub received_at : Time
  pub updated_at : Time
  pub payments : List Payment
  pub notes : String
  pub source_metadata : List (String × Json)
  pub raw_payload : List ℕ
  pub channel : Option ChannelRef
  pub kitchen_number : Option ℕ
  pub estimated_ready_at : Option Time
  pub driver_name : String
  pub floor_at : Option Time
  pub pending_events : List DomainEvent

-- What one call reads from its surroundings: `time.Now()` where it stands for a missing time, where
-- it dates the change and where it dates the event, and the ids that it draws.
pub record Ambient : Type 0 where
  pub at : Time
  pub now : Time
  pub occurred : Time
  pub order_id : Uuid
  pub event_id : Uuid

-- `Snapshot`.
unfoldable pub snapshot : Order → Snapshot
snapshot o = record {
  id = o.id;
  tenant_id = o.tenant_id;
  location_id = o.location_id;
  source = o.source;
  source_event_id = o.source_event_id;
  status = status_text o.status;
  currency = o.currency;
  money = to_money_dto o.money;
  customer = to_customer_dto o.customer;
  fulfillment = to_fulfillment_dto o.fulfillment;
  items = to_items_dto o.items;
  payments = map to_payment_summary o.payments;
  notes = o.notes;
  placed_at = o.placed_at;
  received_at = o.received_at;
  source_meta = o.source_metadata;
  kitchen_number = o.kitchen_number;
  estimated_ready_at = o.estimated_ready_at;
  driver_name = o.driver_name;
}

-- The event that `recordEvent` makes.
unfoldable pub event_of : Ambient → Payload → Order → DomainEvent
event_of e p o = record {
  id = e.event_id;
  aggregate_id = o.id;
  payload = p;
  occurred_at = e.occurred;
  schema_version = o.schema_version;
}

-- `recordEvent`.
unfoldable pub record_event : Ambient → Payload → Order → Order
unfolding event_of
record_event e p o = record o { pending_events = o.pending_events ++ event_of e p o ∷ [] }

-- `PullEvents`: the events, and the order with none left.
unfoldable pub pull_events : Order → List DomainEvent × Order
pull_events o = (o.pending_events, record o { pending_events = [] })

pub record NewOrderInput : Type 0 where
  pub tenant_id : Uuid
  pub location_id : Uuid
  pub source : String
  pub source_event_id : String
  pub source_status : String
  pub customer : Customer
  pub fulfillment : Fulfillment
  pub items : LineItems
  pub money : MoneyBreakdown
  pub currency : String
  pub payments : List Payment
  pub placed_at : Time
  pub notes : String
  pub source_metadata : List (String × Json)
  pub raw_payload : List ℕ
  pub channel : Option ChannelRef

pub data OrderError : Type 0 where
  tenant_required location_required source_required source_event_id_required empty_items
        currency_required placed_at_zero total_mismatch invalid_transition terminal_state
        cancellation_reason_required :
      OrderError

pub data Result {ℓ} (A : Type ℓ) : Type ℓ where
  ok : A → Result A
  err : OrderError → Result A

unfoldable pub sum_fees : List Fee → Money
sum_fees [] = pos 0
sum_fees (f ∷ fs) = f.amount +ℤ sum_fees fs

unfoldable pub sum_discounts : List Discount → Money
sum_discounts [] = pos 0
sum_discounts (d ∷ ds) = d.amount +ℤ sum_discounts ds

-- `moneyReconciles`: the total is within one cent of its parts.
unfoldable pub money_reconciles : MoneyBreakdown → Bool
money_reconciles m =
    let expected = m.subtotal +ℤ m.tax +ℤ m.tip +ℤ sum_fees m.fees -ℤ sum_discounts m.discounts in
    let diff = m.total -ℤ expected in
    let size = if ltb_ℤ diff (pos 0) then neg_ℤ diff else diff in leb_ℤ size (pos 1)

abbrev pub is_empty : LineItems → Bool
is_empty LineItems.nil = true
is_empty (LineItems.cons _ _) = false

-- The order that `NewOrder` builds, before its event.
unfoldable pub built : Ambient → NewOrderInput → Order
built e i = record {
  id = e.order_id;
  tenant_id = i.tenant_id;
  location_id = i.location_id;
  schema_version = 1;
  source = i.source;
  source_event_id = i.source_event_id;
  status = received;
  source_status = i.source_status;
  status_history =
      record {
        from = none;
        to = received;
        at = e.now;
        actor_id = nil_uuid;
        actor = "system";
        reason = "";
      }
      ∷ [];
  customer = i.customer;
  fulfillment = i.fulfillment;
  items = i.items;
  money = i.money;
  currency = i.currency;
  placed_at = i.placed_at;
  received_at = e.now;
  updated_at = e.now;
  payments = i.payments;
  notes = i.notes;
  source_metadata = i.source_metadata;
  raw_payload = i.raw_payload;
  channel = i.channel;
  kitchen_number = none;
  estimated_ready_at = none;
  driver_name = "";
  floor_at = none;
  pending_events = [];
}

unfoldable pub new_order : Ambient → NewOrderInput → Result Order
unfolding built record_event
new_order e i =
    if str_eq i.tenant_id nil_uuid
    then err tenant_required
    else if str_eq i.location_id nil_uuid
    then err location_required
    else if str_eq i.source ""
    then err source_required
    else if str_eq i.source_event_id ""
    then err source_event_id_required
    else if is_empty i.items
    then err empty_items
    else if str_eq i.currency ""
    then err currency_required
    else if is_zero i.placed_at
    then err placed_at_zero
    else if not (money_reconciles i.money)
    then err total_mismatch
    else (let o = built e i in ok (record_event e (order_received (snapshot o)) o))

-- `allowed[to]`.
unfoldable pub status_mem : Status → List Status → Bool
status_mem to [] = false
status_mem to (s ∷ ss) = status_eq s to || status_mem to ss

-- One entry of the history, and the status set to its target.
unfoldable pub move_to : Order → Status → Time → String → Uuid → String → Order
move_to o to at actor actor_id reason = record o {
  status = to;
  status_history =
      o.status_history
      ++ record {
        from = some o.status;
        to = to;
        at = at;
        actor_id = actor_id;
        actor = actor;
        reason = reason;
      }
        ∷ [];
}

unfoldable pub change_payload : Status → String → String → Order → StatusChangedPayload
change_payload from actor reason o = record {
  from = status_text from;
  to = status_text o.status;
  actor = actor;
  reason = reason;
  snapshot = snapshot o;
}

-- `updatedAt` and the status-changed event of a change from `from`.
unfoldable pub announce : Ambient → Status → String → String → Order → Order
unfolding record_event change_payload
announce e from actor reason o =
    let o' = record o { updated_at = e.now } in
    record_event e (order_status_changed (change_payload from actor reason o')) o'

-- `Transition`: an error leaves the order as it was.
unfoldable pub transition : Ambient → Order → Status → String → Uuid → String → Result Order
unfolding move_to announce
transition e o to actor actor_id reason =
    if is_terminal o.status then err terminal_state else elim (valid_transitions o.status) [
      | none ↦ err invalid_transition
      | some allowed ↦
          if not (status_mem to allowed)
          then err invalid_transition
          else if status_eq to cancelled && str_eq reason ""
          then err cancellation_reason_required
          else ok (announce e o.status actor reason (move_to o to e.now actor actor_id reason))
    ]

unfoldable pub attach_payment : Ambient → Payment → Order → Order
attach_payment e p o = record o { payments = o.payments ++ p ∷ []; updated_at = e.now }
