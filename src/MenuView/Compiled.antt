-- ===== src/MenuView/Compiled.antt =====
-- backend/internal/domain/menuview/compile.go, `Compile`: the promises of a build.
use posserver.Prelude.{
  IsIn-All, IsDistinct, ℕ, suc, String, refl, inl, inr, Bool, ◌&&◌, List, [], ◌∷◌, Bool-cases,
  contains,
}
use posserver.Prelude.Int.{ℤ}
use posserver.Prelude.Strings.{CaseTables}
use posserver.MenuView.Types.{BuildItem}
use posserver.MenuView.Bank.{
  Bank, BankMenu, BankCategory, BankItem, item_in, item_in_categories, item_in_menus,
}
use posserver.MenuView.Bank
use posserver.MenuView.View.{
  Rules, View, Kind, Entry, EntryKind, entry_item, entry_merge, entry_augment, entry_map, vendor,
  web, counter, operator,
}
use posserver.MenuView.Compiler.{Compiler}
use posserver.MenuView.Compile.{
  not_indexed, Indexed, index_anchor, index_entry, index_entries, mark_items, mark_name,
  mark_categories, mark_menus, is_none,
}
use posserver.MenuView.Grouped.{
  AreKeyed, AreListed, IsGood, IsGrouped, attention-IsGrouped, if-IsGrouped, group_ids,
}
use posserver.MenuView.Shelves.{AllItems, AllItems-weaken, built-AllItems}
use posserver.MenuView.Shown.{ShowsMenus, show_menus-IsGrouped}
use posserver.MenuView.Placed.{MakesOf, MakesAll, add_entries-IsGrouped}
use posserver.MenuView.Build.{
  Build, UnmatchedName, run, compile, compile_kind, compile_vendor, compiled, empty_build,
}

module _ (P : BuildItem → Type 0) where
  index_anchor-IsGrouped :
      (bank : Bank) (e : Entry) (ids : List String) (x : Indexed)
      → IsGrouped P x.compiler
      → IsGrouped P (index_anchor bank e ids x).compiler
  unfolding index_anchor
  index_anchor-IsGrouped bank e [] x v = attention-IsGrouped P _ _ v
  index_anchor-IsGrouped bank e (id ∷ []) x v = elim (Bool-cases (is_none (Bank.item bank id))) [
    | inl h ↦ rw h (attention-IsGrouped P _ _ v)
    | inr h ↦ rw h v
  ]
  index_anchor-IsGrouped bank e (id ∷ j ∷ ids) x v = attention-IsGrouped P _ _ v

  index_entry-IsGrouped :
      (bank : Bank) (kind : EntryKind) (e : Entry) (x : Indexed)
      → IsGrouped P x.compiler
      → IsGrouped P (index_entry bank kind e x).compiler
  unfolding index_entry
  index_entry-IsGrouped bank entry_item e x v = index_anchor-IsGrouped bank e e.anchor.item_ids x v
  index_entry-IsGrouped bank entry_merge e x v = v
  index_entry-IsGrouped bank entry_augment e x v = v
  index_entry-IsGrouped bank entry_map e x v = v
  index_entry-IsGrouped bank (EntryKind.other s) e x v = v

  index_entries-IsGrouped :
      (bank : Bank) (es : List Entry) (x : Indexed)
      → IsGrouped P x.compiler
      → IsGrouped P (index_entries bank es x).compiler
  unfolding index_entries
  index_entries-IsGrouped bank [] x v = v
  index_entries-IsGrouped bank (e ∷ es) x v =
      index_entries-IsGrouped bank es _ (index_entry-IsGrouped bank e.kind e x v)

  mark_items-IsGrouped :
      (on hidden : Bool) (by_item : List (String × Entry)) (its : List BankItem) (c : Compiler)
      → IsGrouped P c
      → IsGrouped P (mark_items on hidden by_item its c)
  unfolding mark_items
  mark_items-IsGrouped on hidden by_item [] c v = v
  mark_items-IsGrouped on hidden by_item (it ∷ its) c v =
      mark_items-IsGrouped on hidden by_item its _
        (record { listed = v.listed; once = v.once; good = v.good })

  mark_name-IsGrouped :
      (tables : CaseTables) (shown : Bool) (cat : BankCategory) (at : ℤ) (c : Compiler)
      → IsGrouped P c
      → IsGrouped P (mark_name tables shown cat at c)
  unfolding mark_name
  mark_name-IsGrouped tables shown cat at c v =
      if-IsGrouped P _ _ c (record { listed = v.listed; once = v.once; good = v.good }) v

  mark_categories-IsGrouped :
      (tables : CaseTables) (rules : Rules) (available : Bool) (by_item : List (String × Entry))
      (cats : List BankCategory) (n : ℕ) (c : Compiler)
      → IsGrouped P c
      → IsGrouped P (mark_categories tables rules available by_item cats n c).1
  unfolding mark_categories
  mark_categories-IsGrouped tables rules available by_item [] n c v = v
  mark_categories-IsGrouped tables rules available by_item (cat ∷ cats) n c v =
      mark_categories-IsGrouped tables rules available by_item cats (suc n) _ (
        mark_name-IsGrouped tables _ cat _ _ (
          mark_items-IsGrouped (available && cat.available)
            (contains rules.hidden_categories cat.id) by_item cat.items c v))

  mark_menus-IsGrouped :
      (tables : CaseTables) (rules : Rules) (by_item : List (String × Entry)) (ms : List BankMenu)
      (n : ℕ) (c : Compiler)
      → IsGrouped P c
      → IsGrouped P (mark_menus tables rules by_item ms n c)
  unfolding mark_menus
  mark_menus-IsGrouped tables rules by_item [] n c v = v
  mark_menus-IsGrouped tables rules by_item (m ∷ ms) n c v =
      mark_menus-IsGrouped tables rules by_item ms _ _
        (mark_categories-IsGrouped tables rules m.available by_item m.categories n c v)

  pub run-IsGrouped :
      (tables : CaseTables) (bank : Bank) (rules : Rules) (es : List Entry)
      → AreKeyed bank.groups
      → ShowsMenus P rules (index_entries bank es not_indexed) bank.menus
      → MakesAll P es
      → IsGrouped P (run tables bank rules es)
  unfolding run
  run-IsGrouped tables bank rules es k h m =
      let x = index_entries bank es not_indexed in
      add_entries-IsGrouped P tables bank rules es _ k m (
        show_menus-IsGrouped P tables bank rules x bank.menus 0 _ k h (
          mark_menus-IsGrouped tables rules x.by_item bank.menus 0 x.compiler (
            index_entries-IsGrouped bank es not_indexed
              (record { listed = refl; once = tt; good = tt }))))

  pub record IsBuilt (b : Build) : Type 0 where
    pub once : IsDistinct (group_ids b.modifier_groups)
    pub good : AllItems (IsGood P (group_ids b.modifier_groups)) b.categories

  grouped_build :
      (tables : CaseTables) (bank : Bank) (v : View) (es : List Entry)
      → IsGrouped P (run tables bank v.rules es)
      → IsBuilt (compiled (run tables bank v.rules es) (empty_build bank v))
  grouped_build tables bank v es g =
      let c = run tables bank v.rules es in
      record {
        once = rw g.listed g.once;
        good = rw g.listed (built-AllItems (IsGood P c.group_seen) c.cats g.good);
      }

  pub compile_kind-IsBuilt :
      (tables : CaseTables) (bank : Bank) (v : View) (kind : Kind) (es : List Entry)
      (unmatched : List UnmatchedName)
      → IsGrouped P (run tables bank v.rules es)
      → IsBuilt (compile_kind tables bank v kind es unmatched)
  unfolding compile_kind compile_vendor
  compile_kind-IsBuilt tables bank v vendor es unmatched g = record { once = tt; good = tt }
  compile_kind-IsBuilt tables bank v web es unmatched g = grouped_build tables bank v es g
  compile_kind-IsBuilt tables bank v operator es unmatched g = grouped_build tables bank v es g
  compile_kind-IsBuilt tables bank v counter es unmatched g = grouped_build tables bank v es g
  compile_kind-IsBuilt tables bank v (Kind.other s) es unmatched g =
      grouped_build tables bank v es g

every_item :
    (P : BuildItem → Type 0) (rules : Rules) (x : Indexed) (ms : List BankMenu)
    → ((bi : BuildItem) → P bi)
    → ShowsMenus P rules x ms
every_item P rules x ms f = IsIn-All _ ms (λ m i on.
    IsIn-All _ m.categories (λ cat j on'. IsIn-All _ cat.items (λ it k on'' bi p q. f bi)))

every_entry : (P : BuildItem → Type 0) (es : List Entry) → ((bi : BuildItem) → P bi) → MakesAll P es
every_entry P es f = IsIn-All _ es (λ e i. makes e.kind e)
  where
    makes : (kind : EntryKind) (e : Entry) → MakesOf P kind e
    makes entry_merge e = λ h bi p q. f bi
    makes entry_augment e = λ h bi p q. f bi
    makes entry_item e = tt
    makes entry_map e = tt
    makes (EntryKind.other s) e = tt

-- Of a bank that lists each group under its own id, a build lists no group twice, and every group that
-- an item of it refers to is listed.
pub compile-AreListed :
    (tables : CaseTables) (bank : Bank) (v : View) (es : List Entry)
    (unmatched : List UnmatchedName)
    → AreKeyed bank.groups
    → let b = compile tables bank v es unmatched in
      IsDistinct (group_ids b.modifier_groups)
      × AllItems
          (λ (bi : BuildItem). AreListed (group_ids b.modifier_groups) bi.modifier_group_ids)
          b.categories
unfolding compile
compile-AreListed tables bank v es unmatched k =
    let P : BuildItem → Type 0 = λ bi. Unit in
    let g =
      run-IsGrouped P tables bank v.rules es k
        (every_item P v.rules (index_entries bank es not_indexed) bank.menus (λ bi. tt))
        (every_entry P es (λ bi. tt)) in
    let b = compile_kind-IsBuilt P tables bank v v.kind es unmatched g in
    (b.once, AllItems-weaken _ _ _ (λ bi q. q.0) b.good)
