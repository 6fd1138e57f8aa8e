-- ===== src/MenuView/Bank.antt =====
-- backend/internal/domain/menu/bank.go: the bank that views compile from, in the fields that a build
-- reads. The maps of the source are lists of entries.
use posserver.Prelude.{String, Bool, Option, none, some, List, [], ◌∷◌, if◌then◌else◌, str_eq}
use posserver.Prelude.Int.{ℤ}
use posserver.MenuView.Types.{OptionPrice}

pub record Size : Type 0 where
  pub id : String
  pub name : String
  pub short : String

pub record ItemSize : Type 0 where
  pub size_id : String
  pub price_cents : ℤ

pub record BankItem : Type 0 where
  pub id : String
  pub name : String
  pub description : String
  pub price_cents : ℤ
  pub in_stock : Bool
  pub position : ℤ
  pub sizes : List ItemSize
  pub group_ids : List String

pub record BankCategory : Type 0 where
  pub id : String
  pub name : String
  pub available : Bool
  pub items : List BankItem

pub record BankMenu : Type 0 where
  pub available : Bool
  pub categories : List BankCategory

pub record BankOption : Type 0 where
  pub id : String
  pub name : String
  pub price_delta_cents : ℤ
  pub in_stock : Bool
  pub is_default : Bool
  pub prices : List OptionPrice

pub record BankGroup : Type 0 where
  pub id : String
  pub name : String
  pub required : Bool
  pub min_select : ℤ
  pub max_select : ℤ
  pub allow_multiple : Bool
  pub portions : Bool
  pub options : List BankOption

pub record Bank : Type 0 where
  pub version : ℤ
  pub sizes : List Size
  pub menus : List BankMenu
  pub groups : List (String × BankGroup)

unfoldable pub item_in : String → BankCategory → List BankItem → Option (BankItem × BankCategory)
item_in id cat [] = none
item_in id cat (it ∷ its) = if str_eq it.id id then some (it, cat) else item_in id cat its

abbrev or_else {ℓ} : {A : Type ℓ} → Option A → Option A → Option A
or_else (some a) o = some a
or_else none o = o

unfoldable pub item_in_categories : String → List BankCategory → Option (BankItem × BankCategory)
unfolding item_in
item_in_categories id [] = none
item_in_categories id (cat ∷ cats) = or_else (item_in id cat cat.items) (item_in_categories id cats)

unfoldable pub item_in_menus : String → List BankMenu → Option (BankItem × BankCategory)
unfolding item_in_categories
item_in_menus id [] = none
item_in_menus id (m ∷ ms) = or_else (item_in_categories id m.categories) (item_in_menus id ms)

-- `Bank.Item`.
unfoldable pub item : Bank → String → Option (BankItem × BankCategory)
unfolding item_in_menus
item bank id = item_in_menus id bank.menus

unfoldable pub size_in : String → List Size → Option Size
size_in id [] = none
size_in id (s ∷ ss) = if str_eq s.id id then some s else size_in id ss

-- `Bank.SizeByID`.
unfoldable pub size_by_id : Bank → String → Option Size
unfolding size_in
size_by_id bank id = size_in id bank.sizes
