-- ===== src/Order/Snapshot.antt =====
-- backend/internal/domain/order/snapshot.go: the wire shapes of an order's parts. A nil slice or
-- map and an empty one are one value here, since every such field is `omitempty` or made afresh.
use posserver.Prelude.{ℕ, String, Option, none, some, List, map, if◌then◌else◌, str_eq}
use posserver.Prelude.Int.{ℤ}
use posserver.Order.Types.{
  Time, Uuid, Json, Fee, Discount, MoneyBreakdown, Address, Fulfillment, Customer, ItemFields,
  LineItem, LineItems, line_item, Payment,
}

pub record FeeDto : Type 0 where
  pub type : String
  pub label : String
  pub amount : ℤ

pub record DiscountDto : Type 0 where
  pub type : String
  pub code : String
  pub label : String
  pub amount : ℤ

pub record MoneyDto : Type 0 where
  pub subtotal : ℤ
  pub tax : ℤ
  pub tip : ℤ
  pub fees : List FeeDto
  pub discounts : List DiscountDto
  pub total : ℤ

pub record CustomerDto : Type 0 where
  pub display_name : String
  pub email : String
  pub phone : String

pub record FulfillmentDto : Type 0 where
  pub type : String
  pub address : Option Address
  pub promised_at : Option Time
  pub table_id : String

pub record ItemDtoFields : Type 0 where
  pub id : String
  pub position : ℤ
  pub sku : String
  pub name : String
  pub size : String
  pub quantity : ℤ
  pub unit_price : ℤ
  pub line_total : ℤ
  pub notes : String
  pub menu_item_id : String
  pub printer_id : String
  pub routing : String

mutual
  pub data LineItemDto : Type 0 where
    line_item_dto : ItemDtoFields → LineItemDtos → LineItemDto

  pub data LineItemDtos : Type 0 where
    nil : LineItemDtos
    cons : LineItemDto → LineItemDtos → LineItemDtos

pub record PaymentSummary : Type 0 where
  pub method : String
  pub amount_cents : ℤ
  pub last4 : String
  pub auth_code : String

pub record Snapshot : Type 0 where
  pub id : String
  pub tenant_id : String
  pub location_id : String
  pub source : String
  pub source_event_id : String
  pub status : String
  pub currency : String
  pub money : MoneyDto
  pub customer : CustomerDto
  pub fulfillment : FulfillmentDto
  pub items : LineItemDtos
  pub payments : List PaymentSummary
  pub notes : String
  pub placed_at : Time
  pub received_at : Time
  pub source_meta : List (String × Json)
  pub kitchen_number : Option ℕ
  pub estimated_ready_at : Option Time
  pub driver_name : String

unfoldable pub to_payment_summary : Payment → PaymentSummary
to_payment_summary p = record {
  method = if str_eq p.processor "" then "other" else p.processor;
  amount_cents = p.amount;
  last4 = p.last4;
  auth_code = p.auth_code;
}

unfoldable pub to_fee_dto : Fee → FeeDto
to_fee_dto f = record { type = f.type; label = f.label; amount = f.amount }

unfoldable pub to_discount_dto : Discount → DiscountDto
to_discount_dto d = record { type = d.type; code = d.code; label = d.label; amount = d.amount }

unfoldable pub to_money_dto : MoneyBreakdown → MoneyDto
to_money_dto m = record {
  subtotal = m.subtotal;
  tax = m.tax;
  tip = m.tip;
  fees = map to_fee_dto m.fees;
  discounts = map to_discount_dto m.discounts;
  total = m.total;
}

unfoldable pub to_customer_dto : Customer → CustomerDto
to_customer_dto c = record { display_name = c.display_name; email = c.email; phone = c.phone }

unfoldable pub to_fulfillment_dto : Fulfillment → FulfillmentDto
to_fulfillment_dto f = record {
  type = f.type;
  address = f.address;
  promised_at = f.promised_at;
  table_id = f.table_id;
}

-- The text of an optional id: "" where there is none.
abbrev pub id_or_empty : Option Uuid → String
id_or_empty none = ""
id_or_empty (some i) = i

unfoldable pub to_item_fields : ItemFields → ItemDtoFields
to_item_fields i = record {
  id = i.id;
  position = i.position;
  sku = i.sku;
  name = i.name;
  size = i.size;
  quantity = i.quantity;
  unit_price = i.unit_price;
  line_total = i.line_total;
  notes = i.notes;
  menu_item_id = id_or_empty i.menu_item_id;
  printer_id = id_or_empty i.printer_id;
  routing = i.routing;
}

unfoldable mutual
  unfolding to_item_fields

  pub to_item_dto : LineItem → LineItemDto
  to_item_dto (line_item f children) = line_item_dto (to_item_fields f) (to_items_dto children)

  pub to_items_dto : LineItems → LineItemDtos
  to_items_dto LineItems.nil = LineItemDtos.nil
  to_items_dto (LineItems.cons i is) = LineItemDtos.cons (to_item_dto i) (to_items_dto is)
