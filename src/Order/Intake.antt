-- ===== src/Order/Intake.antt =====
-- backend/internal/domain/order/entity.go, `NewOrder`: what an order must have, and what is made of it.
use posserver.Prelude.{◌<◌, ◌≡◌, ◌≢◌, ◌↔◌, true, false, [], ◌∷◌, arith, str_eq_iff}
use posserver.Prelude.Int.{ℤ, pos, ◌+ℤ◌, ◌-ℤ◌, ◌≤ℤ◌, +ℤ_parts, -ℤ_parts, neg_ℤ_parts}
use posserver.Order.Types.{nil_uuid, MoneyBreakdown}
use posserver.Order.Status.{received}
use posserver.Order.Aggregate.{
  Order, Ambient, NewOrderInput, ok, new_order, built, record_event, event_of, order_received,
  snapshot, money_reconciles, sum_fees, sum_discounts, is_empty,
}

-- What the parts of an order's money add up to.
abbrev pub expected : MoneyBreakdown → ℤ
expected m = m.subtotal +ℤ m.tax +ℤ m.tip +ℤ sum_fees m.fees -ℤ sum_discounts m.discounts

-- The total is within one cent of the parts.
abbrev pub IsReconciled : MoneyBreakdown → Type 0
IsReconciled m = (m.total ≤ℤ expected m +ℤ pos 1) × (expected m ≤ℤ m.total +ℤ pos 1)

pub record IsAcceptable (i : NewOrderInput) : Type 0 where
  pub tenant : i.tenant_id ≢ nil_uuid
  pub location : i.location_id ≢ nil_uuid
  pub source : i.source ≢ ""
  pub source_event : i.source_event_id ≢ ""
  pub items : is_empty i.items ≡ false
  pub currency : i.currency ≢ ""
  pub placed : 0 < i.placed_at
  pub money : IsReconciled i.money

money_reconciles→ : (m : MoneyBreakdown) → money_reconciles m ≡ true → IsReconciled m
unfolding money_reconciles
money_reconciles→ m h =
    let d = m.total -ℤ expected m in
    ground (
      arith,
      -ℤ_parts m.total (expected m),
      neg_ℤ_parts d,
      +ℤ_parts (expected m) (pos 1),
      +ℤ_parts m.total (pos 1),
    )

→money_reconciles : (m : MoneyBreakdown) → IsReconciled m → money_reconciles m ≡ true
unfolding money_reconciles
→money_reconciles m h =
    let d = m.total -ℤ expected m in
    ground (
      arith,
      -ℤ_parts m.total (expected m),
      neg_ℤ_parts d,
      +ℤ_parts (expected m) (pos 1),
      +ℤ_parts m.total (pos 1),
    )

-- The order is received, has the input's money, and its one event carries it as it is.
abbrev pub IsReceived : Ambient → NewOrderInput → Order → Type 0
IsReceived e i o =
    (o.status ≡ received)
    × (o.money ≡ i.money)
    × (o.pending_events ≡ event_of e (order_received (snapshot o)) o ∷ [])

new_order-IsAcceptable :
    (e : Ambient) (i : NewOrderInput) {o : Order}
    → new_order e i ≡ ok o
    → IsAcceptable i × IsReceived e i o
unfolding new_order snapshot
new_order-IsAcceptable e i h = ground (
  arith,
  str_eq_iff i.tenant_id nil_uuid,
  str_eq_iff i.location_id nil_uuid,
  str_eq_iff i.source "",
  str_eq_iff i.source_event_id "",
  str_eq_iff i.currency "",
  money_reconciles→ i.money,
)

IsAcceptable-new_order :
    (e : Ambient) (i : NewOrderInput) → IsAcceptable i → (o : Order) × (new_order e i ≡ ok o)
unfolding new_order
IsAcceptable-new_order e i a = (
  record_event e (order_received (snapshot (built e i))) (built e i),
  ground (
    arith,
    str_eq_iff i.tenant_id nil_uuid,
    str_eq_iff i.location_id nil_uuid,
    str_eq_iff i.source "",
    str_eq_iff i.source_event_id "",
    str_eq_iff i.currency "",
    →money_reconciles i.money,
  ),
)

-- `NewOrder` makes an order exactly of the inputs that meet every requirement; the order is then
-- received, has the input's money, and its one event carries it as it is.
pub new_order_iff :
    (e : Ambient) (i : NewOrderInput)
    → IsAcceptable i ↔ ((o : Order) × (new_order e i ≡ ok o) × IsReceived e i o)
new_order_iff e i = (
  λ a.
      let made = IsAcceptable-new_order e i a in
      (made.0, made.1, (new_order-IsAcceptable e i made.1).1),
  λ made. (new_order-IsAcceptable e i made.1).0,
)
