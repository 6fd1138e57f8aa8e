-- ===== src/MenuView/Compile.antt =====
-- backend/internal/domain/menuview/compile.go, `Compile`: the view of a bank that a channel shows.
use posserver.Prelude.{
  ℕ, suc, String, Bool, true, false, not, ◌&&◌, ◌||◌, Option, none, some, List, [], ◌∷◌, ◌++◌,
  if◌then◌else◌, str_eq, contains, lookup, insert,
}
use posserver.Prelude.Int.{ℤ, pos}
use posserver.Prelude.Strings.{trim_space, to_lower, CaseTables}
use posserver.MenuView.Types.{BuildItem}
use posserver.MenuView.Bank.{Bank, BankMenu, BankCategory, BankItem}
use posserver.MenuView.Bank
use posserver.MenuView.View.{Rules, Entry, EntryKind, entry_item, entry_merge}
use posserver.MenuView.Compiler.{
  no_compiler, Compiler, NeedsAttention, attention, put, put_named, open_category, price, sizes,
  groups,
}

abbrev pub is_set : String → Bool
is_set s = not (str_eq (trim_space s) "")

abbrev pub is_none {ℓ} : {A : Type ℓ} → Option A → Bool
is_none none = true
is_none (some a) = false

-- `byItem` and `merged`, and the compiler.
pub record Indexed : Type 0 where
  pub by_item : List (String × Entry)
  pub merged : List String
  pub compiler : Compiler

abbrev pub not_indexed : Indexed
not_indexed = record { by_item = []; merged = []; compiler = no_compiler }

abbrev tell : NeedsAttention → Indexed → Indexed
tell n x = record x { compiler = attention n x.compiler }

unfoldable pub index_anchor : Bank → Entry → List String → Indexed → Indexed
index_anchor bank e (id ∷ []) x =
    if is_none (Bank.item bank id)
    then tell
        (record {
          code = "anchor_gone";
          entry_id = e.id;
          item_id = id;
          name = e.display_name;
          orders = pos 0;
          message = "the bank item this entry changes is gone";
        })
        x
    else record x { by_item = insert id e x.by_item }
index_anchor bank e ids x =
    tell
      (record {
        code = "bad_anchor";
        entry_id = e.id;
        item_id = "";
        name = "";
        orders = pos 0;
        message = "an item entry anchors exactly one bank item";
      })
      x

unfoldable pub index_entry : Bank → EntryKind → Entry → Indexed → Indexed
unfolding index_anchor
index_entry bank entry_item e x = index_anchor bank e e.anchor.item_ids x
index_entry bank entry_merge e x = record x { merged = x.merged ++ e.anchor.item_ids }
index_entry bank _ e x = x

unfoldable pub index_entries : Bank → List Entry → Indexed → Indexed
unfolding index_entry
index_entries bank [] x = x
index_entries bank (e ∷ es) x = index_entries bank es (index_entry bank e.kind e x)

abbrev pub hides : Option Entry → Bool
hides none = false
hides (some e) = e.hidden

-- What can be sold, and what the view hides.
unfoldable pub mark_items :
    Bool → Bool → List (String × Entry) → List BankItem → Compiler → Compiler
mark_items on hidden by_item [] c = c
mark_items on hidden by_item (it ∷ its) c = mark_items on hidden by_item its (record c {
  sellable = insert it.id on c.sellable;
  view_hidden =
      if hidden || hides (lookup it.id by_item) then c.view_hidden ++ it.id ∷ [] else c.view_hidden;
})

-- The first shown category of a name keeps it.
unfoldable pub mark_name : CaseTables → Bool → BankCategory → ℤ → Compiler → Compiler
mark_name tables shown cat place c =
    let k = to_lower tables (trim_space cat.name) in
    if shown && not (str_eq k "") && is_none (lookup k c.bank_cats)
    then record c {
      bank_cats = insert k (record { key = cat.id; name = cat.name; pos = place }) c.bank_cats;
    }
    else c

unfoldable pub mark_categories :
    CaseTables
    → Rules
    → Bool
    → List (String × Entry)
    → List BankCategory
    → ℕ
    → Compiler
    → ℕ × Compiler
unfolding mark_items mark_name
mark_categories tables rules available by_item [] n c = (n, c)
mark_categories tables rules available by_item (cat ∷ cats) n c =
    let hidden = contains rules.hidden_categories cat.id in
    let on = available && cat.available in
    mark_categories tables rules available by_item cats (suc n) (
      mark_name tables (on && not hidden) cat (pos (suc n))
        (mark_items on hidden by_item cat.items c))

unfoldable pub mark_menus :
    CaseTables → Rules → List (String × Entry) → List BankMenu → ℕ → Compiler → Compiler
unfolding mark_categories
mark_menus tables rules by_item [] n c = c
mark_menus tables rules by_item (m ∷ ms) n c =
    let marked = mark_categories tables rules m.available by_item m.categories n c in
    mark_menus tables rules by_item ms marked.0 marked.1

abbrev pub changed : Bank → Rules → BankItem → Option Entry → BuildItem → BuildItem
changed bank rules it none bi = bi
changed bank rules it (some e) bi = record bi {
  name = if is_set e.display_name then trim_space e.display_name else bi.name;
  description = if str_eq e.description "" then bi.description else e.description;
  photo = e.photo;
  position = e.position;
  price_cents = elim e.price_override_cents [ none ↦ bi.price_cents | some p ↦ p ];
  sizes = elim e.extra.size_prices [ [] ↦ bi.sizes | p ∷ ps ↦ sizes bank rules (p ∷ ps) it.sizes ];
}

abbrev pub want_photo : Rules → BankItem → BuildItem → Compiler → Compiler
want_photo rules it bi c =
    if rules.require_photo && str_eq bi.photo ""
    then attention
        (record {
          code = "no_photo";
          entry_id = "";
          item_id = it.id;
          name = bi.name;
          orders = pos 0;
          message = "no photo yet";
        })
        c
    else c

-- `compiler.item`.
unfoldable pub show_item : Bank → Rules → BankItem → Option Entry → Compiler → BuildItem × Compiler
show_item bank rules it e c =
    let (ids, c1) = groups bank rules it.group_ids c in
    let bi = changed bank rules it e (record {
      id = it.id;
      name = it.name;
      description = it.description;
      photo = "";
      anchor = record { item_ids = it.id ∷ []; size_id = none };
      price_cents = price rules it.price_cents;
      sizes = sizes bank rules [] it.sizes;
      sold_out = not it.in_stock;
      modifier_group_ids = ids;
      choices = [];
      position = it.position;
    }) in
    (bi, want_photo rules it bi c1)

-- The bank category is there from its first item on, also when that item goes elsewhere.
abbrev pub opened : BankCategory → ℤ → Compiler → Compiler
opened cat place c = record c { cats = open_category cat.id cat.name place c.cats }

-- Where the item goes: its bank category, or the one its entry moves it into.
unfoldable pub put_shown :
    CaseTables → BankCategory → ℤ → Option Entry → BuildItem → Compiler → Compiler
put_shown tables cat place none bi c = put cat.id cat.name place bi c
put_shown tables cat place (some e) bi c =
    if is_set e.category
    then put_named tables e.category place bi (opened cat place c)
    else put cat.id cat.name place bi c

unfoldable pub show_items :
    CaseTables → Bank → Rules → Indexed → BankCategory → ℤ → List BankItem → Compiler → Compiler
unfolding show_item put_shown
show_items tables bank rules x cat place [] c = c
show_items tables bank rules x cat place (it ∷ its) c =
    let e = lookup it.id x.by_item in
    let shown = show_item bank rules it e c in
    show_items tables bank rules x cat place its (
      if contains x.merged it.id || hides e
      then c
      else put_shown tables cat place e shown.0 shown.1)

unfoldable pub show_categories :
    CaseTables → Bank → Rules → Indexed → List BankCategory → ℕ → Compiler → ℕ × Compiler
unfolding show_items
show_categories tables bank rules x [] n c = (n, c)
show_categories tables bank rules x (cat ∷ cats) n c =
    let place = pos (suc n) in
    show_categories tables bank rules x cats (suc n) (
      if not cat.available || contains rules.hidden_categories cat.id
      then c
      else show_items tables bank rules x cat place cat.items
          (record c { cat_pos = insert cat.id place c.cat_pos }))

unfoldable pub show_menus :
    CaseTables → Bank → Rules → Indexed → List BankMenu → ℕ → Compiler → Compiler
unfolding show_categories
show_menus tables bank rules x [] n c = c
show_menus tables bank rules x (m ∷ ms) n c =
    let shown =
      if not m.available then (n, c) else show_categories tables bank rules x m.categories n c in
    show_menus tables bank rules x ms shown.0 shown.1
