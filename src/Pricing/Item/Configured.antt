-- ===== src/Pricing/Item/Configured.antt =====
-- backend/internal/domain/pricing/engine.go: `newEngine`, and `price` up to the size: the item, the choice
-- and the size that are priced. A map is the list of its entries.
use posserver.Prelude.{
  String, Bool, not, Option, none, some, List, [], ◌∷◌, ◌++◌, if◌then◌else◌, str_eq, ◌<>◌, lookup,
  insert,
}
use posserver.Prelude.Int.{ℤ, pos, ltb_ℤ}
use posserver.MenuView.Types.{
  BuildItem, BuildCategory, BuildGroup, BuildOption, BuildChoice, BuildItemSize,
}
use posserver.Pricing.Types.{
  Context, ItemFacts, Issue, IssueCode, unknown_size, option_rules, Selection,
}
use posserver.Pricing.Live.{is_empty}

pub record ResolvedOption : Type 0 where
  pub name : String
  pub portion : String
  pub price_cents : ℤ
  pub removed_default : Bool
  pub included : Bool

-- `priced`: one configured item.
pub record Priced : Type 0 where
  pub name : String
  pub mods : List String
  pub base : ℤ
  pub extras : ℤ
  pub unit : ℤ
  pub bank_item : String
  pub rate_item : String
  pub size : String
  pub size_name : String
  pub choice : String
  pub opts : List ResolvedOption
  pub issues : List Issue

pub record Engine : Type 0 where
  pub ctx : Context
  pub items : List (String × BuildItem)
  pub groups : List (String × BuildGroup)

-- The first item of an id is kept.
unfoldable pub add_items : List (String × BuildItem) → List BuildItem → List (String × BuildItem)
add_items m [] = m
add_items m (it ∷ its) =
    add_items (elim (lookup it.id m) [ none ↦ insert it.id it m | some dup ↦ m ]) its

unfoldable pub add_categories :
    List (String × BuildItem) → List BuildCategory → List (String × BuildItem)
unfolding add_items
add_categories m [] = m
add_categories m (c ∷ cs) = add_categories (add_items m c.items) cs

-- The last group of an id is kept.
unfoldable pub add_groups :
    List (String × BuildGroup) → List BuildGroup → List (String × BuildGroup)
add_groups m [] = m
add_groups m (g ∷ gs) = add_groups (insert g.id g m) gs

-- `newEngine`.
unfoldable pub new_engine : Context → Engine
unfolding add_categories add_groups
new_engine ctx = record {
  ctx = ctx;
  items = add_categories [] ctx.menu.categories;
  groups = add_groups [] ctx.menu.modifier_groups;
}

abbrev facts_category : Option ItemFacts → String
facts_category none = ""
facts_category (some f) = f.category_id

abbrev facts_tax : Option ItemFacts → ℤ
facts_tax none = pos 0
facts_tax (some f) = f.tax_bps

-- `category`.
unfoldable pub category : Engine → String → String
category e bank_item = facts_category (lookup bank_item e.ctx.items)

-- `rate`: the item's own tax rate, else the store's.
unfoldable pub rate : Engine → String → ℤ
rate e bank_item =
    let r = facts_tax (lookup bank_item e.ctx.items) in
    if ltb_ℤ (pos 0) r then r else e.ctx.settings.tax_bps

abbrev pub issue : IssueCode → String → Issue
issue code message = record { code = code; message = message; line = none }

abbrev pub add_issue : Priced → IssueCode → String → Priced
add_issue p code message = record p { issues = p.issues ++ issue code message ∷ [] }

-- The last choice with the id.
unfoldable pub find_choice : String → Option BuildChoice → List BuildChoice → Option BuildChoice
find_choice id found [] = found
find_choice id found (c ∷ cs) = find_choice id (if str_eq c.item_id id then some c else found) cs

unfoldable pub find_size : String → Option BuildItemSize → List BuildItemSize → Option BuildItemSize
find_size id found [] = found
find_size id found (s ∷ ss) = find_size id (if str_eq s.size_id id then some s else found) ss

unfoldable pub find_option : String → Option BuildOption → List BuildOption → Option BuildOption
find_option id found [] = found
find_option id found (o ∷ os) = find_option id (if str_eq o.id id then some o else found) os

-- `price` goes on with the item's sizes, base price and stock, or returns early.
pub data Chosen : Type 0 where
  go_on : Priced → List BuildItemSize → ℤ → Bool → Chosen
  done : Priced → Chosen

abbrev pub start : BuildItem → Priced
start it = record {
  name = it.name;
  mods = [];
  base = pos 0;
  extras = pos 0;
  unit = pos 0;
  bank_item = "";
  rate_item = "";
  size = "";
  size_name = "";
  choice = "";
  opts = [];
  issues = [];
}

abbrev pub head? {ℓ} : {A : Type ℓ} → List A → Option A
head? [] = none
head? (x ∷ xs) = some x

unfoldable pub take_choice : BuildItem → Option BuildChoice → Chosen
take_choice it none = done (add_issue (start it) option_rules (it.name <> ": choose one."))
take_choice it (some ch) =
    go_on
      (record (start it) {
        mods = ch.name ∷ [];
        choice = ch.name;
        bank_item = ch.item_id;
        rate_item = ch.item_id;
      })
      ch.sizes ch.price_cents ch.sold_out

unfoldable pub anchored : BuildItem → Option String → Priced
anchored it none = start it
anchored it (some first) =
    if str_eq first it.id
    then record (start it) { bank_item = it.id; rate_item = it.id }
    else record (start it) { rate_item = first }

-- The first switch of `price`.
unfoldable pub choose : BuildItem → Selection → Chosen
unfolding take_choice anchored find_choice
choose it sel =
    if not (is_empty it.choices)
    then take_choice it (find_choice sel.choice_id none it.choices)
    else go_on (anchored it (head? it.anchor.item_ids)) it.sizes it.price_cents it.sold_out

unfoldable pub take_size : BuildItem → Priced → Bool → Option BuildItemSize → Chosen
take_size it p out none = done (add_issue p unknown_size (it.name <> ": that size is gone."))
take_size it p out (some sz) =
    go_on (record p { size = sz.size_id; size_name = sz.name; mods = p.mods ++ sz.name ∷ [] }) []
      sz.price_cents out

-- The size: the first where the selection names none.
unfoldable pub choose_size : BuildItem → Selection → Chosen → Chosen
unfolding take_size find_size
choose_size it sel (done p) = done p
choose_size it sel (go_on p sizes base out) =
    if not (is_empty sizes)
    then take_size it p out
        (find_size sel.size_id (if str_eq sel.size_id "" then head? sizes else none) sizes)
    else if not (str_eq sel.size_id "")
    then done (add_issue p unknown_size (it.name <> ": that size is gone."))
    else go_on p [] base out
