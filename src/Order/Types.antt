-- ===== src/Order/Types.antt =====
-- backend/internal/domain/order/entity.go, the value types of an order. A `Money` is an integer of
-- minor units, a `time.Time` the nanoseconds since Go's zero time (0 is the zero time), a UUID its
-- canonical text, a nil pointer `none`, and JSON metadata a tree.
use posserver.Prelude.{ℕ, Bool, Option, List, String, ◌==◌}
use posserver.Prelude.Int.{ℤ}

abbrev pub Time : Type 0
Time = ℕ

abbrev pub is_zero : Time → Bool
is_zero t = t == 0

abbrev pub Uuid : Type 0
Uuid = String

abbrev pub nil_uuid : Uuid
nil_uuid = "00000000-0000-0000-0000-000000000000"

abbrev pub Money : Type 0
Money = ℤ

-- A value of `map[string]any`.
mutual
  pub data Json : Type 0 where
    null : Json
    bool : Bool → Json
    num : String → Json
    str : String → Json
    arr : JsonItems → Json
    obj : JsonFields → Json

  pub data JsonItems : Type 0 where
    nil : JsonItems
    cons : Json → JsonItems → JsonItems

  pub data JsonFields : Type 0 where
    end : JsonFields
    field : String → Json → JsonFields → JsonFields

pub record Fee : Type 0 where
  pub type : String
  pub label : String
  pub amount : Money

pub record Discount : Type 0 where
  pub type : String
  pub code : String
  pub label : String
  pub amount : Money

pub record MoneyBreakdown : Type 0 where
  pub subtotal : Money
  pub tax : Money
  pub tip : Money
  pub fees : List Fee
  pub discounts : List Discount
  pub total : Money

pub record Address : Type 0 where
  pub line1 : String
  pub line2 : String
  pub city : String
  pub state : String
  pub postal_code : String
  pub country : String
  pub notes : String

pub record Fulfillment : Type 0 where
  pub type : String
  pub address : Option Address
  pub promised_at : Option Time
  pub table_id : String

pub record Customer : Type 0 where
  pub display_name : String
  pub email : String
  pub phone : String
  pub external_id : String

-- The fields of a line item but its children.
pub record ItemFields : Type 0 where
  pub id : Uuid
  pub parent_id : Option Uuid
  pub position : ℤ
  pub sku : String
  pub name : String
  pub size : String
  pub quantity : ℤ
  pub unit_price : Money
  pub line_total : Money
  pub notes : String
  pub menu_item_id : Option Uuid
  pub printer_id : Option Uuid
  pub routing : String

mutual
  pub data LineItem : Type 0 where
    line_item : ItemFields → LineItems → LineItem

  pub data LineItems : Type 0 where
    nil : LineItems
    cons : LineItem → LineItems → LineItems

pub record Payment : Type 0 where
  pub id : Uuid
  pub processor : String
  pub status : String
  pub amount : Money
  pub token : String
  pub last4 : String
  pub auth_code : String
  pub captured_at : Option Time

pub record ChannelRef : Type 0 where
  pub id : Uuid
  pub client_order_id : String
  pub payment : List ℕ
  pub track_token : String
  pub operator_id : Option Uuid
