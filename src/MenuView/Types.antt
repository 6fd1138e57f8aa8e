-- ===== src/MenuView/Types.antt =====
-- backend/internal/domain/menuview/compile.go: the parts of a compiled menu. A UUID stands for its
-- canonical text.
use posserver.Prelude.{String, Bool, Option, List}
use posserver.Prelude.Int.{ℤ}

pub record BuildItemSize : Type 0 where
  pub size_id : String
  pub name : String
  pub price_cents : ℤ

pub record BuildChoice : Type 0 where
  pub item_id : String
  pub name : String
  pub price_cents : ℤ
  pub sizes : List BuildItemSize
  pub sold_out : Bool

pub record Anchor : Type 0 where
  pub item_ids : List String
  pub size_id : Option String

pub record BuildItem : Type 0 where
  pub id : String
  pub name : String
  pub description : String
  pub photo : String
  pub anchor : Anchor
  pub price_cents : ℤ
  pub sizes : List BuildItemSize
  pub sold_out : Bool
  pub modifier_group_ids : List String
  pub choices : List BuildChoice
  pub position : ℤ

pub record BuildCategory : Type 0 where
  pub key : String
  pub name : String
  pub position : ℤ
  pub items : List BuildItem

pub record OptionPrice : Type 0 where
  pub size_id : String
  pub price_cents : ℤ

pub record BuildOption : Type 0 where
  pub id : String
  pub name : String
  pub price_cents : ℤ
  pub prices : List OptionPrice
  pub is_default : Bool
  pub sold_out : Bool

pub record BuildGroup : Type 0 where
  pub id : String
  pub name : String
  pub required : Bool
  pub min_select : ℤ
  pub max_select : ℤ
  pub allow_multiple : Bool
  pub portions : Bool
  pub options : List BuildOption
