-- ===== src/MenuView/View.antt =====
-- backend/internal/domain/menuview/view.go: views, their rules and their entries.
use posserver.Prelude.{String, Bool, Option, List}
use posserver.Prelude.Int.{ℤ}
use posserver.MenuView.Types.{Anchor}

pub data Kind : Type 0 where
  web operator counter vendor : Kind
  other : String → Kind

pub record Rules : Type 0 where
  pub markup_bps : ℤ
  pub round : String
  pub hidden_categories : List String
  pub require_photo : Bool

pub record View : Type 0 where
  pub id : String
  pub kind : Kind
  pub name : String
  pub rules : Rules

pub data EntryKind : Type 0 where
  entry_item entry_merge entry_augment entry_map : EntryKind
  other : String → EntryKind

pub record Extra : Type 0 where
  pub size_prices : List (String × ℤ)
  pub labels : List (String × String)
  pub vendor_name : String
  pub vendor_size : String

pub record Entry : Type 0 where
  pub id : String
  pub kind : EntryKind
  pub anchor : Anchor
  pub display_name : String
  pub description : String
  pub photo : String
  pub category : String
  pub position : ℤ
  pub hidden : Bool
  pub price_override_cents : Option ℤ
  pub extra : Extra
