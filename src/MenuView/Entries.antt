-- ===== src/MenuView/Entries.antt =====
-- backend/internal/domain/menuview/compile.go, `merge`, `augment` and `place`: the items that entries
-- make of bank items.
use posserver.Prelude.{
  ◌^◌, String, Bool, true, false, not, ◌&&◌, ◌||◌, Option, none, some, List, [], ◌∷◌, ◌++◌, ltb,
  if◌then◌else◌, length, str_eq, contains, lookup,
}
use posserver.Prelude.Int.{ℤ, pos}
use posserver.Prelude.Strings.{trim_space, CaseTables}
use posserver.MenuView.Types.{BuildItem, BuildChoice}
use posserver.MenuView.Bank.{Bank, BankCategory, BankItem}
use posserver.MenuView.Bank
use posserver.MenuView.View.{Rules, Entry, EntryKind, entry_merge, entry_augment}
use posserver.MenuView.Compiler.{
  Compiler, NeedsAttention, attention, put, put_named, price, sizes, groups,
}
use posserver.MenuView.Compile.{is_set}

abbrev pub place_at : BankCategory → BuildItem → Compiler → Option ℤ → Compiler
place_at cat bi c none = c
place_at cat bi c (some place) = put cat.id cat.name place bi c

abbrev pub place_in : BuildItem → Compiler → Option BankCategory → Compiler
place_in bi c none = c
place_in bi c (some cat) = place_at cat bi c (lookup cat.id c.cat_pos)

-- `compiler.place`.
unfoldable pub place : CaseTables → Entry → BuildItem → Option BankCategory → Compiler → Compiler
place tables e bi cat c =
    if e.hidden
    then c
    else if is_set e.category
    then put_named tables (trim_space e.category) (pos (2 ^ 30)) bi c
    else place_in bi c cat

abbrev is_sellable : Option Bool → Bool
is_sellable none = false
is_sellable (some b) = b

-- `c.sellable[id]`.
abbrev pub sells : Compiler → String → Bool
sells c id = is_sellable (lookup id c.sellable)

-- The variables of the loop of `merge`.
pub record Merging : Type 0 where
  pub first : Option (BankItem × BankCategory)
  pub choices : List BuildChoice
  pub all_out : Bool
  pub compiler : Compiler

abbrev label : Option String → String → String
label none name = name
label (some l) name = if is_set l then trim_space l else name

abbrev first_of :
    Option (BankItem × BankCategory) → BankItem × BankCategory → Option (BankItem × BankCategory)
first_of (some f) x = some f
first_of none x = some x

abbrev pub anchor_gone : Entry → String → String → NeedsAttention
anchor_gone e id message = record {
  code = "anchor_gone";
  entry_id = e.id;
  item_id = id;
  name = e.display_name;
  orders = pos 0;
  message = message;
}

unfoldable pub merge_found :
    Bank → Rules → Entry → String → Option (BankItem × BankCategory) → Merging → Merging
merge_found bank rules e id none m = record m {
  compiler = attention (anchor_gone e id "a bank item in this merge is gone") m.compiler;
}
merge_found bank rules e id (some (it, cat)) m =
    if not (sells m.compiler id) || contains m.compiler.view_hidden id then m else record m {
      first = first_of m.first (it, cat);
      choices =
          m.choices
          ++ record {
            item_id = it.id;
            name = label (lookup id e.extra.labels) it.name;
            price_cents = price rules it.price_cents;
            sizes = sizes bank rules [] it.sizes;
            sold_out = not it.in_stock;
          }
            ∷ [];
      all_out = m.all_out && not it.in_stock;
    }

unfoldable pub merge_items : Bank → Rules → Entry → List String → Merging → Merging
unfolding merge_found
merge_items bank rules e [] m = m
merge_items bank rules e (id ∷ ids) m =
    merge_items bank rules e ids (merge_found bank rules e id (Bank.item bank id) m)

abbrev or_price : Option ℤ → ℤ → ℤ
or_price (some v) p = v
or_price none p = p

unfoldable pub merge_first :
    CaseTables → Bank → Rules → Entry → Option (BankItem × BankCategory) → Merging → Compiler
unfolding place
merge_first tables bank rules e none m = m.compiler
merge_first tables bank rules e (some (first, cat)) m =
    let (ids, c1) = groups bank rules first.group_ids m.compiler in
    let name = trim_space e.display_name in
    place tables e
      (record {
        id = e.id;
        name = if str_eq name "" then first.name else name;
        description = e.description;
        photo = e.photo;
        anchor = record { item_ids = e.anchor.item_ids; size_id = none };
        price_cents = or_price e.price_override_cents (price rules first.price_cents);
        sizes = sizes bank rules [] first.sizes;
        sold_out = m.all_out;
        modifier_group_ids = ids;
        choices = m.choices;
        position = e.position;
      })
      (some cat) c1

-- `compiler.merge`.
unfoldable pub merge : CaseTables → Bank → Rules → Entry → Compiler → Compiler
unfolding merge_items merge_first
merge tables bank rules e c =
    if ltb (length e.anchor.item_ids) 2
    then attention
        (record {
          code = "bad_merge";
          entry_id = e.id;
          item_id = "";
          name = e.display_name;
          orders = pos 0;
          message = "a merge needs two or more bank items";
        })
        c
    else (let m =
          merge_items bank rules e e.anchor.item_ids
            (record { first = none; choices = []; all_out = true; compiler = c }) in
        merge_first tables bank rules e m.first m)

-- How the loop of `augment` ends: the item can be sold, or the function returned.
pub data Augmented : Type 0 where
  sold : Option BankCategory → Bool → Augmented
  ended : Compiler → Augmented

abbrev pub first_cat : Option BankCategory → BankCategory → Option BankCategory
first_cat (some c) x = some c
first_cat none x = some x

unfoldable pub augment_items :
    Bank → Entry → List String → Option BankCategory → Bool → Compiler → Augmented
augment_items bank e [] cat out c = sold cat out
augment_items bank e (id ∷ ids) cat out c = elim (Bank.item bank id) [
  | none ↦ ended (attention (anchor_gone e id "a bank item in this added item is gone") c)
  | some (it, found) ↦
      (let rest = augment_items bank e ids (first_cat cat found) (out || not it.in_stock) c in
        if sells c id then rest else ended c)
]

unfoldable pub augment_with : CaseTables → Entry → ℤ → Augmented → Compiler → Compiler
unfolding place
augment_with tables e price_cents (ended c') c = c'
augment_with tables e price_cents (sold cat out) c =
    place tables e
      (record {
        id = e.id;
        name = trim_space e.display_name;
        description = e.description;
        photo = e.photo;
        anchor = record { item_ids = e.anchor.item_ids; size_id = none };
        price_cents = price_cents;
        sizes = [];
        sold_out = out;
        modifier_group_ids = [];
        choices = [];
        position = e.position;
      })
      cat c

abbrev bad_augment : Entry → NeedsAttention
bad_augment e = record {
  code = "bad_augment";
  entry_id = e.id;
  item_id = "";
  name = e.display_name;
  orders = pos 0;
  message = "an added item needs a name, a price and at least one bank item";
}

unfoldable pub augment_priced :
    CaseTables → Bank → Entry → Option ℤ → List String → Compiler → Compiler
unfolding augment_items augment_with
augment_priced tables bank e none ids c = attention (bad_augment e) c
augment_priced tables bank e (some p) [] c = attention (bad_augment e) c
augment_priced tables bank e (some p) (id ∷ ids) c =
    if is_set e.display_name
    then augment_with tables e p (augment_items bank e (id ∷ ids) none false c) c
    else attention (bad_augment e) c

-- `compiler.augment`.
unfoldable pub augment : CaseTables → Bank → Entry → Compiler → Compiler
unfolding augment_priced
augment tables bank e c = augment_priced tables bank e e.price_override_cents e.anchor.item_ids c

unfoldable pub add_entry : CaseTables → Bank → Rules → EntryKind → Entry → Compiler → Compiler
unfolding merge augment
add_entry tables bank rules entry_merge e c = merge tables bank rules e c
add_entry tables bank rules entry_augment e c = augment tables bank e c
add_entry tables bank rules _ e c = c

-- Merges and augments.
unfoldable pub add_entries : CaseTables → Bank → Rules → List Entry → Compiler → Compiler
unfolding add_entry
add_entries tables bank rules [] c = c
add_entries tables bank rules (e ∷ es) c =
    add_entries tables bank rules es (add_entry tables bank rules e.kind e c)
