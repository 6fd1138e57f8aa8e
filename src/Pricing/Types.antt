-- ===== src/Pricing/Types.antt =====
-- backend/internal/domain/pricing/types.go and settings.go: what a quote is made from and what it
-- holds. Cents, counts and basis points are integers, as they may come out of any JSON.
use posserver.Prelude.{ℕ, String, Bool, Option, List}
use posserver.Prelude.Int.{ℤ}
use posserver.Order.Types.{Time}
use posserver.Prelude.Strings.{CaseTables}
use posserver.MenuView.Types.{BuildCategory, BuildGroup}

pub record Menu : Type 0 where
  pub categories : List BuildCategory
  pub modifier_groups : List BuildGroup

pub record ItemFacts : Type 0 where
  pub category_id : String
  pub tax_bps : ℤ

pub record OrderTypes : Type 0 where
  pub pickup : Bool
  pub delivery : Bool

pub record Tips : Type 0 where
  pub enabled : Bool
  pub presets : List ℤ
  pub default_pct : ℤ

-- `CardFee.Mode`; `other` is any text that is none of the modes.
pub data CardFeeMode : Type 0 where
  no_fee surcharge cash_discount : CardFeeMode
  other : String → CardFeeMode

pub record CardFee : Type 0 where
  pub mode : CardFeeMode
  pub bps : ℤ

-- `Stacking`; `other` is any text that is none of the modes.
pub data Stacking : Type 0 where
  best stack single : Stacking
  other : String → Stacking

pub record Settings : Type 0 where
  pub tax_bps : ℤ
  pub service_fee_cents : ℤ
  pub service_fee_bps : ℤ
  pub delivery_fee_cents : ℤ
  pub free_delivery_over_cents : Option ℤ
  pub delivery_min_cents : ℤ
  pub tips : Tips
  pub card_fee : CardFee
  pub stacking : Stacking

-- `Deal.Kind`; `other` is any text that is none of the kinds.
pub data DealKind : Type 0 where
  bundle mix nth promo_code free_item : DealKind
  other : String → DealKind

pub record Schedule : Type 0 where
  pub days : List String
  pub start : String
  pub end : String

pub record Eligible : Type 0 where
  pub items : List String
  pub categories : List String
  pub sizes : List String

pub record Slot : Type 0 where
  pub label : String
  pub eligible : Eligible
  pub included_options : ℤ

pub record Deal : Type 0 where
  pub id : String
  pub kind : DealKind
  pub name : String
  pub description : String
  pub active : Bool
  pub fulfil : String
  pub schedule : Option Schedule
  pub price_cents : ℤ
  pub slots : List Slot
  pub eligible : Option Eligible
  pub qty : ℤ
  pub each_cents : ℤ
  pub n : ℤ
  pub pct : ℤ
  pub code : String
  pub amount_cents : ℤ
  pub first_order_only : Bool
  pub min_subtotal_cents : ℤ

pub record Context : Type 0 where
  pub menu : Menu
  pub items : List (String × ItemFacts)
  pub settings : Settings
  pub deals : List Deal
  pub timezone : String
  pub types : OrderTypes

pub record Pick : Type 0 where
  pub group_id : String
  pub option_id : String
  pub portion : String

pub record Selection : Type 0 where
  pub item_id : String
  pub choice_id : String
  pub size_id : String
  pub options : List Pick

pub record Line : Type 0 where
  pub selection : Selection
  pub qty : ℤ
  pub note : String
  pub deal_id : String
  pub picks : List Selection

pub record Cart : Type 0 where
  pub type : String
  pub payment : String
  pub lines : List Line
  pub code : String
  pub tip_cents : Option ℤ
  pub tip_pct : Option ℤ
  pub first_order : Option Bool

pub record QuoteLine : Type 0 where
  pub index : ℕ
  pub name : String
  pub mods : List String
  pub qty : ℕ
  pub unit_cents : ℤ
  pub total_cents : ℤ
  pub regular_cents : Option ℤ
  pub deal_id : String

pub data DiscountType : Type 0 where
  deal code cash : DiscountType

pub record Discount : Type 0 where
  pub type : DiscountType
  pub deal_id : String
  pub label : String
  pub amount_cents : ℤ

pub data IssueCode : Type 0 where
  empty unknown_item unknown_size unknown_option option_rules sold_out deal_ended deal_unavailable
        deal_slot code_invalid code_minimum code_first_order code_not_combinable type_off bad_type
        delivery_minimum :
      IssueCode

pub record Issue : Type 0 where
  pub code : IssueCode
  pub message : String
  pub line : Option ℕ

pub record Quote : Type 0 where
  pub lines : List QuoteLine
  pub subtotal_cents : ℤ
  pub discounts : List Discount
  pub delivery_fee_cents : ℤ
  pub service_fee_cents : ℤ
  pub tax_cents : ℤ
  pub tip_cents : ℤ
  pub card_fee_cents : ℤ
  pub total_cents : ℤ
  pub saved_cents : ℤ
  pub errors : List Issue
  pub warnings : List String
  pub nudges : List String

-- A local clock reading: the weekday counts from Sunday.
pub record Local : Type 0 where
  pub weekday : ℕ
  pub hour : ℕ
  pub minute : ℕ

-- The time zone database (`time.LoadLocation`) and Unicode's case tables.
pub record World : Type 0 where
  pub zones : String → Option (Time → Local)
  pub tables : CaseTables
