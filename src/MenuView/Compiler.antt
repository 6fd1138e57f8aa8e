-- ===== src/MenuView/Compiler.antt =====
-- backend/internal/domain/menuview/compile.go: the compiler's state and how it shows one bank item. The
-- maps `cats` and `order` are one list of categories in order, `groupSeen` and `viewHidden` the lists of
-- their keys.
use posserver.Prelude.{
  String, Bool, not, Option, none, some, List, [], ◌∷◌, ◌++◌, map, if◌then◌else◌, str_eq, ◌<>◌,
  contains, lookup,
}
use posserver.Prelude.Int.{ℤ}
use posserver.Prelude.Strings.{trim_space, to_lower, CaseTables}
use posserver.MenuView.Types.{
  BuildItem, BuildItemSize, BuildCategory, BuildGroup, BuildOption, OptionPrice,
}
use posserver.MenuView.Rule.{apply_rule}
use posserver.MenuView.Bank.{Bank, BankGroup, BankOption, ItemSize, Size, size_by_id}
use posserver.MenuView.View.{Rules}

pub record NeedsAttention : Type 0 where
  pub code : String
  pub entry_id : String
  pub item_id : String
  pub name : String
  pub orders : ℤ
  pub message : String

pub record BankCat : Type 0 where
  pub key : String
  pub name : String
  pub pos : ℤ

pub record Compiler : Type 0 where
  pub cats : List BuildCategory
  pub cat_pos : List (String × ℤ)
  pub group_seen : List String
  pub sellable : List (String × Bool)
  pub view_hidden : List String
  pub bank_cats : List (String × BankCat)
  pub modifier_groups : List BuildGroup
  pub needs_attention : List NeedsAttention

abbrev pub no_compiler : Compiler
no_compiler = record {
  cats = [];
  cat_pos = [];
  group_seen = [];
  sellable = [];
  view_hidden = [];
  bank_cats = [];
  modifier_groups = [];
  needs_attention = [];
}

-- `compiler.attention`.
abbrev pub attention : NeedsAttention → Compiler → Compiler
attention n c = record c { needs_attention = c.needs_attention ++ n ∷ [] }

-- `compiler.category`, and the item that its callers append.
unfoldable pub put_item : String → String → ℤ → BuildItem → List BuildCategory → List BuildCategory
put_item key name place bi [] =
    record { key = key; name = name; position = place; items = bi ∷ [] } ∷ []
put_item key name place bi (cat ∷ cats) =
    if str_eq cat.key key
    then record cat { items = cat.items ++ bi ∷ [] } ∷ cats
    else cat ∷ put_item key name place bi cats

unfoldable pub open_category : String → String → ℤ → List BuildCategory → List BuildCategory
open_category key name place [] =
    record { key = key; name = name; position = place; items = [] } ∷ []
open_category key name place (cat ∷ cats) =
    if str_eq cat.key key then cat ∷ cats else cat ∷ open_category key name place cats

unfoldable pub put : String → String → ℤ → BuildItem → Compiler → Compiler
put key name place bi c = record c { cats = put_item key name place bi c.cats }

abbrev pub put_found : Option BankCat → String → ℤ → BuildItem → Compiler → Compiler
put_found (some b) name place bi c = put b.key b.name b.pos bi c
put_found none name place bi c = put ("c:" <> name) name place bi c

-- `compiler.named`.
unfoldable pub put_named : CaseTables → String → ℤ → BuildItem → Compiler → Compiler
unfolding put
put_named tables name place bi c =
    let name' = trim_space name in
    put_found (lookup (to_lower tables name') c.bank_cats) name' place bi c

-- `compiler.price`, `compiler.optionPrice`.
unfoldable pub price : Rules → ℤ → ℤ
price rules cents = apply_rule cents rules.markup_bps rules.round

unfoldable pub option_price : Rules → ℤ → ℤ
option_price rules cents = apply_rule cents rules.markup_bps "none"

abbrev or_price : Option ℤ → ℤ → ℤ
or_price (some v) p = v
or_price none p = p

abbrev shown_size : Rules → List (String × ℤ) → ItemSize → Option Size → List BuildItemSize
shown_size rules override s none = []
shown_size rules override s (some size) =
    record {
      size_id = s.size_id;
      name = size.name;
      price_cents = or_price (lookup s.size_id override) (price rules s.price_cents);
    }
    ∷ []

-- `compiler.sizes`.
unfoldable pub sizes : Bank → Rules → List (String × ℤ) → List ItemSize → List BuildItemSize
sizes bank rules override [] = []
sizes bank rules override (s ∷ ss) =
    shown_size rules override s (size_by_id bank s.size_id) ++ sizes bank rules override ss

abbrev build_price : Rules → OptionPrice → OptionPrice
build_price rules p = record { size_id = p.size_id; price_cents = option_price rules p.price_cents }

abbrev build_option : Rules → BankOption → BuildOption
build_option rules o = record {
  id = o.id;
  name = o.name;
  price_cents = option_price rules o.price_delta_cents;
  prices = map (build_price rules) o.prices;
  is_default = o.is_default;
  sold_out = not o.in_stock;
}

abbrev pub build_group : Rules → BankGroup → BuildGroup
build_group rules g = record {
  id = g.id;
  name = g.name;
  required = g.required;
  min_select = g.min_select;
  max_select = g.max_select;
  allow_multiple = g.allow_multiple;
  portions = g.portions;
  options = map (build_option rules) g.options;
}

-- The first use of a group lists it.
unfoldable pub see_group : Rules → String → BankGroup → Compiler → Compiler
see_group rules id g c = if contains c.group_seen id then c else record c {
  group_seen = c.group_seen ++ id ∷ [];
  modifier_groups = c.modifier_groups ++ build_group rules g ∷ [];
}

unfoldable pub see_found : Rules → String → Option BankGroup → Compiler → Compiler
unfolding see_group
see_found rules id none c = c
see_found rules id (some g) c = see_group rules id g c

abbrev pub add_found : Option BankGroup → String → List String → List String
add_found none id ids = ids
add_found (some g) id ids = id ∷ ids

-- `compiler.groups`.
unfoldable pub groups : Bank → Rules → List String → Compiler → List String × Compiler
unfolding see_found
groups bank rules [] c = ([], c)
groups bank rules (id ∷ ids) c =
    let found = lookup id bank.groups in
    let rest = groups bank rules ids (see_found rules id found c) in
    (add_found found id rest.0, rest.1)
