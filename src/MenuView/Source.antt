-- ===== src/MenuView/Source.antt =====
-- backend/internal/domain/menuview/compile.go, `Compile`: where the items of a build come from.
use posserver.Prelude.{
  IsIn, IsIn-All, contains-append, String, ◌≡◌, refl, ap, ◌∙◌, ◌⊎◌, inl, inr, Bool, true, false,
  not, ◌||◌, Option, none, some, List, [], ◌∷◌, arith, if◌then◌else◌, Bool-cases, str_eq,
  str_eq_iff, contains, lookup, lookup-insert,
}
use mathlib.Core.Path.{subst}
use posserver.Prelude.Strings.{CaseTables}
use posserver.MenuView.Types.{BuildItem}
use posserver.MenuView.Bank.{
  Bank, BankMenu, BankCategory, BankItem, item_in, item_in_categories, item_in_menus,
}
use posserver.MenuView.Bank
use posserver.MenuView.View.{
  Rules, View, Entry, EntryKind, entry_item, entry_merge, entry_augment, entry_map,
}
use posserver.MenuView.Compile.{
  Indexed, not_indexed, index_anchor, index_entry, index_entries, hides, is_none,
}
use posserver.MenuView.Grouped.{AreKeyed}
use posserver.MenuView.Shelves.{AllItems, AllItems-weaken}
use posserver.MenuView.Shown.{ShowsMenus}
use posserver.MenuView.Placed.{MakesOf, MakesAll}
use posserver.MenuView.Compiled.{run-IsGrouped, compile_kind-IsBuilt}
use posserver.MenuView.Build.{UnmatchedName, compile}

-- The entry is a merge of the item.
abbrev merges : EntryKind → List String → String → Bool
merges entry_merge ids id = contains ids id
merges _ ids id = false

abbrev pub in_merge : List Entry → String → Bool
in_merge [] id = false
in_merge (e ∷ es) id = merges e.kind e.anchor.item_ids id || in_merge es id

-- The entry changes the item.
abbrev changes : EntryKind → List String → String → Bool
changes entry_item (j ∷ []) id = str_eq j id
changes _ ids id = false

-- The last entry that changes the item, else `o`.
abbrev pub last_change : List Entry → String → Option Entry → Option Entry
last_change [] id o = o
last_change (e ∷ es) id o =
    last_change es id (if changes e.kind e.anchor.item_ids id then some e else o)

index_anchor-merged :
    (bank : Bank) (e : Entry) (ids : List String) (x : Indexed)
    → (index_anchor bank e ids x).merged ≡ x.merged
unfolding index_anchor
index_anchor-merged bank e [] x = refl
index_anchor-merged bank e (id ∷ []) x = ground arith
index_anchor-merged bank e (id ∷ j ∷ ids) x = refl

index_entry-merged :
    (bank : Bank) (kind : EntryKind) (e : Entry) (x : Indexed) (id : String)
    → contains (index_entry bank kind e x).merged id
      ≡ (contains x.merged id || merges kind e.anchor.item_ids id)
unfolding index_entry
index_entry-merged bank entry_item e x id = ground (
  arith,
  ap (λ (m : List String). contains m id) (index_anchor-merged bank e e.anchor.item_ids x),
)
index_entry-merged bank entry_merge e x id =
    ground (arith, contains-append x.merged e.anchor.item_ids id)
index_entry-merged bank entry_augment e x id = ground arith
index_entry-merged bank entry_map e x id = ground arith
index_entry-merged bank (EntryKind.other s) e x id = ground arith

index_entries-merged :
    (bank : Bank) (es : List Entry) (x : Indexed) (id : String)
    → contains (index_entries bank es x).merged id ≡ (contains x.merged id || in_merge es id)
unfolding index_entries
index_entries-merged bank [] x id = ground arith
index_entries-merged bank (e ∷ es) x id = ground (
  arith,
  index_entries-merged bank es (index_entry bank e.kind e x) id,
  index_entry-merged bank e.kind e x id,
)

index_anchor-lookup :
    (bank : Bank) (e : Entry) (ids : List String) (x : Indexed) (id : String)
    → is_none (Bank.item bank id) ≡ false
    → lookup id (index_anchor bank e ids x).by_item
      ≡ (if changes entry_item ids id then some e else lookup id x.by_item)
unfolding index_anchor
index_anchor-lookup bank e [] x id h = refl
index_anchor-lookup bank e (j ∷ []) x id h = elim (Bool-cases (str_eq j id)) [
  | inl same ↦ ground (
    arith,
    ap (λ (t : String). is_none (Bank.item bank t)) ((str_eq_iff j id).0 same),
    lookup-insert j id e x.by_item,
  )
  | inr differ ↦ ground (arith, lookup-insert j id e x.by_item)
]
index_anchor-lookup bank e (j ∷ k ∷ ids) x id h = refl

index_entry-lookup :
    (bank : Bank) (kind : EntryKind) (e : Entry) (x : Indexed) (id : String)
    → is_none (Bank.item bank id) ≡ false
    → lookup id (index_entry bank kind e x).by_item
      ≡ (if changes kind e.anchor.item_ids id then some e else lookup id x.by_item)
unfolding index_entry
index_entry-lookup bank entry_item e x id h = index_anchor-lookup bank e e.anchor.item_ids x id h
index_entry-lookup bank entry_merge e x id h = refl
index_entry-lookup bank entry_augment e x id h = refl
index_entry-lookup bank entry_map e x id h = refl
index_entry-lookup bank (EntryKind.other s) e x id h = refl

index_entries-lookup :
    (bank : Bank) (es : List Entry) (x : Indexed) (id : String)
    → is_none (Bank.item bank id) ≡ false
    → lookup id (index_entries bank es x).by_item ≡ last_change es id (lookup id x.by_item)
unfolding index_entries
index_entries-lookup bank [] x id h = refl
index_entries-lookup bank (e ∷ es) x id h =
    index_entries-lookup bank es (index_entry bank e.kind e x) id h
    ∙ ap (last_change es id) (index_entry-lookup bank e.kind e x id h)

-- What the bank holds is found.
item_in-found :
    (it : BankItem) (cat : BankCategory) (its : List BankItem)
    → IsIn it its
    → is_none (item_in it.id cat its) ≡ false
unfolding item_in
item_in-found it cat [] m = absurd m
item_in-found it cat (j ∷ js) (inl e) =
    ground (arith, str_eq_iff j.id it.id, ap (λ (i : BankItem). i.id) e)
item_in-found it cat (j ∷ js) (inr m) = ground (arith, item_in-found it cat js m)

in_categories-found :
    (it : BankItem) (cat : BankCategory) (cats : List BankCategory)
    → IsIn cat cats
    → IsIn it cat.items
    → is_none (item_in_categories it.id cats) ≡ false
unfolding item_in_categories
in_categories-found it cat [] m i = absurd m
in_categories-found it cat (k ∷ ks) (inl e) i =
    ground (arith, item_in-found it k k.items (subst (λ (c : BankCategory). IsIn it c.items) e i))
in_categories-found it cat (k ∷ ks) (inr m) i = ground (arith, in_categories-found it cat ks m i)

in_menus-found :
    (it : BankItem) (cat : BankCategory) (m : BankMenu) (ms : List BankMenu)
    → IsIn m ms
    → IsIn cat m.categories
    → IsIn it cat.items
    → is_none (item_in_menus it.id ms) ≡ false
unfolding item_in_menus
in_menus-found it cat m [] n c i = absurd n
in_menus-found it cat m (k ∷ ks) (inl e) c i =
    let c' = subst (λ (n : BankMenu). IsIn cat n.categories) e c in
    ground (arith, in_categories-found it cat k.categories c' i)
in_menus-found it cat m (k ∷ ks) (inr n) c i = ground (arith, in_menus-found it cat m ks n c i)

-- The view shows the bank item alone: its menu and category are on and not hidden, no merge has it,
-- and the last entry that changes it does not hide it.
pub record IsOffered (bank : Bank) (rules : Rules) (es : List Entry) (it : BankItem) : Type 0 where
  pub menu : BankMenu
  pub category : BankCategory
  pub in_bank : IsIn menu bank.menus × IsIn category menu.categories × IsIn it category.items
  pub on : (menu.available ≡ true) × (category.available ≡ true)
  pub shown : contains rules.hidden_categories category.id ≡ false
  pub alone : in_merge es it.id ≡ false
  pub kept : hides (last_change es it.id none) ≡ false

-- Where an item of a build comes from: a bank item, or an entry that merges or adds.
pub data Comes (bank : Bank) (rules : Rules) (es : List Entry) (bi : BuildItem) : Type 0 where
  of_bank :
      (it : BankItem)
      → IsOffered bank rules es it
      → bi.id ≡ it.id
      → bi.anchor ≡ record { item_ids = it.id ∷ []; size_id = none }
      → Comes bank rules es bi
  of_entry :
      (e : Entry)
      → IsIn e es
      → (e.kind ≡ entry_merge) ⊎ (e.kind ≡ entry_augment)
      → e.hidden ≡ false
      → bi.id ≡ e.id
      → bi.anchor ≡ record { item_ids = e.anchor.item_ids; size_id = none }
      → Comes bank rules es bi

module _ (bank : Bank) (rules : Rules) (es : List Entry) where
  abbrev From : BuildItem → Type 0
  From = Comes bank rules es

  offered :
      (m : BankMenu) (cat : BankCategory) (it : BankItem)
      → IsIn m bank.menus × IsIn cat m.categories × IsIn it cat.items
      → m.available ≡ true
      → (not cat.available || contains rules.hidden_categories cat.id) ≡ false
      → (contains (index_entries bank es not_indexed).merged it.id
          || hides (lookup it.id (index_entries bank es not_indexed).by_item))
        ≡ false
      → IsOffered bank rules es it
  unfolding lookup contains
  offered m cat it i on shown h =
      let found : is_none (Bank.item bank it.id) ≡ false =
        unfold Bank.item in in_menus-found it cat m bank.menus i.0 i.1 i.2 in
      record {
        menu = m;
        category = cat;
        in_bank = i;
        on = (on, ground arith);
        shown = ground arith;
        alone = ground (arith, index_entries-merged bank es not_indexed it.id);
        kept = ground (
          arith,
          index_entries-merged bank es not_indexed it.id,
          ap hides (index_entries-lookup bank es not_indexed it.id found),
        );
      }

  shows_offered : ShowsMenus From rules (index_entries bank es not_indexed) bank.menus
  shows_offered = IsIn-All _ bank.menus λ m i on. IsIn-All _ m.categories λ cat j on'.
      IsIn-All _ cat.items λ it k h bi p q. of_bank it (offered m cat it (i, j, k) on on' h) p q

  makes : (e : Entry) (kind : EntryKind) → IsIn e es → e.kind ≡ kind → MakesOf From kind e
  makes e entry_merge i k = λ h bi p q. of_entry e i (inl k) h p q
  makes e entry_augment i k = λ h bi p q. of_entry e i (inr k) h p q
  makes e entry_item i k = tt
  makes e entry_map i k = tt
  makes e (EntryKind.other s) i k = tt

  makes_all : MakesAll From es
  makes_all = IsIn-All _ es λ e i. makes e e.kind i refl

-- Of a bank that lists each group under its own id, every item of a build is a bank item that the view has to show alone, or what an entry that is not
-- hidden makes; it keeps its bank item's or its entry's id, and its anchor names the bank items.
pub compile-Comes :
    (tables : CaseTables) (bank : Bank) (v : View) (es : List Entry)
    (unmatched : List UnmatchedName)
    → AreKeyed bank.groups
    → AllItems (Comes bank v.rules es) (compile tables bank v es unmatched).categories
unfolding compile
compile-Comes tables bank v es unmatched k =
    let P = From bank v.rules es in
    let g =
      run-IsGrouped P tables bank v.rules es k (shows_offered bank v.rules es)
        (makes_all bank v.rules es) in
    AllItems-weaken _ _ _ (λ bi q. q.1)
      (compile_kind-IsBuilt P tables bank v v.kind es unmatched g).good
