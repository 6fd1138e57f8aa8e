-- ===== src/MenuView/BankExamples.antt =====
-- backend/internal/domain/menuview/compile.go, `Compile`: a small bank, seen by a web view and a vendor
-- view.
use posserver.Prelude.{
  insert, All, IsDistinct, ℕ, String, ◌≡◌, refl, true, false, none, List, [], ◌∷◌, contains, lookup,
}
use posserver.Prelude.Int.{pos}
use posserver.Prelude.Strings.{CaseTables, trim_space, to_lower}
use posserver.Prelude.Sort.{InOrder}
use posserver.MenuView.Types.{BuildItem, BuildCategory}
use posserver.MenuView.Bank.{Bank, BankCategory, BankItem, BankGroup, item, size_by_id}
use posserver.MenuView.View.{View, web, Entry, entry_item, entry_merge}
use posserver.MenuView.Rule.{apply_rule}
use posserver.MenuView.Compiler.{open_category, put_item, put_named, sizes, groups}
use posserver.MenuView.Compile.{index_entries, mark_menus, show_menus}
use posserver.MenuView.Entries.{add_entries, merge_first, place}
use posserver.MenuView.Build.{compile, run, filled, sorted_categories}
use posserver.MenuView.Grouped.{AreListed, group_ids}
use posserver.MenuView.Shelves.{AllItems}
use posserver.MenuView.Compiled.{compile-AreListed}
use posserver.MenuView.Source.{Comes, compile-Comes}
use posserver.MenuView.Arranged.{compile-InOrder, category_before, IsFilled}

abbrev tables : CaseTables
tables = record { upper = λ c. c; lower = λ c. c }

abbrev bank_item : String → String → ℕ → List String → BankItem
bank_item id name cents ids = record {
  id = id;
  name = name;
  description = "";
  price_cents = pos cents;
  in_stock = true;
  position = pos 0;
  sizes = [];
  group_ids = ids;
}

abbrev group : BankGroup
group = record {
  id = "g";
  name = "Extras";
  required = false;
  min_select = pos 0;
  max_select = pos 0;
  allow_multiple = true;
  portions = false;
  options = [];
}

abbrev category : String → List BankItem → BankCategory
category id items = record { id = id; name = id; available = true; items = items }

-- The first menu is off.
abbrev bank : Bank
bank = record {
  version = pos 1;
  sizes = [];
  menus =
      record { available = false; categories = category "breakfast" [] ∷ category "brunch" [] ∷ [] }
      ∷ record {
        available = true;
        categories =
            category "pizza"
              (bank_item "p" "Pizza" 1200 ("g" ∷ []) ∷ bank_item "r" "Roll" 500 [] ∷ [])
            ∷ category "salad" (bank_item "s" "Salad" 900 ("g" ∷ []) ∷ [])
            ∷ category "soup" (bank_item "o" "Soup" 700 [] ∷ [])
            ∷ [];
      }
      ∷ [];
  groups = ("g", group) ∷ [];
}

abbrev entry : Entry
entry = record {
  id = "e1";
  kind = entry_item;
  anchor = record { item_ids = "r" ∷ []; size_id = none };
  display_name = "";
  description = "";
  photo = "";
  category = "salad";
  position = pos 0;
  hidden = false;
  price_override_cents = none;
  extra = record { size_prices = []; labels = []; vendor_name = ""; vendor_size = "" };
}

abbrev choice : Entry
choice = record entry {
  id = "e2";
  kind = entry_merge;
  anchor = record { item_ids = "s" ∷ "o" ∷ []; size_id = none };
  display_name = "Starter";
  category = "";
}

abbrev view : View
view = record {
  id = "v";
  kind = web;
  name = "Web";
  rules = record {
    markup_bps = pos 0;
    round = "none";
    hidden_categories = [];
    require_photo = false;
  };
}

abbrev keys : List BuildCategory → List String
keys [] = []
keys (c ∷ cs) = c.key ∷ keys cs

-- An item that moves into the salads makes their category at the place that the first count gave it,
-- behind the soups.
moved : keys (compile tables bank view (entry ∷ []) []).categories ≡ "pizza" ∷ "soup" ∷ "salad" ∷ []
unfolding compile run index_entries mark_menus show_menus add_entries filled sorted_categories
    apply_rule put_item put_named sizes groups lookup insert contains trim_space to_lower
    merge_first place item size_by_id open_category
moved = refl

compile-AreListed_example :
    let b = compile tables bank view (entry ∷ choice ∷ []) [] in
    IsDistinct (group_ids b.modifier_groups)
    × AllItems
        (λ (bi : BuildItem). AreListed (group_ids b.modifier_groups) bi.modifier_group_ids)
        b.categories
compile-AreListed_example = compile-AreListed tables bank view (entry ∷ choice ∷ []) [] (refl, tt)

compile-Comes_example :
    AllItems
      (Comes bank view.rules (entry ∷ choice ∷ []))
      (compile tables bank view (entry ∷ choice ∷ []) []).categories
compile-Comes_example = compile-Comes tables bank view (entry ∷ choice ∷ []) [] (refl, tt)

compile-InOrder_example :
    let b = compile tables bank view (entry ∷ choice ∷ []) [] in
    InOrder category_before b.categories × All IsFilled b.categories
compile-InOrder_example = compile-InOrder tables bank view (entry ∷ choice ∷ []) []
