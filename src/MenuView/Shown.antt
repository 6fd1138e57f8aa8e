-- ===== src/MenuView/Shown.antt =====
-- backend/internal/domain/menuview/compile.go, `compiler.run`: what holds of every item that the loop
-- over the bank shows, where `P` holds of every bank item that the view has to show alone.
use posserver.Prelude.{
  All, ℕ, suc, String, ◌≡◌, refl, Bool, true, false, not, ◌&&◌, ◌||◌, Option, none, some, List, [],
  ◌∷◌, if◌then◌else◌, str_eq, contains, lookup, insert,
}
use posserver.Prelude.Int.{ℤ, pos}
use posserver.Prelude.Strings.{CaseTables}
use posserver.MenuView.Types.{BuildItem}
use posserver.MenuView.Bank.{Bank, BankMenu, BankCategory, BankItem}
use posserver.MenuView.View.{Rules, Entry}
use posserver.MenuView.Compiler.{Compiler}
use posserver.MenuView.Compile.{
  Indexed, show_item, put_shown, show_items, show_categories, show_menus, hides, want_photo,
}
use posserver.MenuView.Grouped.{
  AreKeyed, AreListed, IsGrouped, groups-Sees, put_shown-IsGrouped, if-IsGrouped,
  attention-IsGrouped,
}

module _ (P : BuildItem → Type 0) where
  -- `P` holds of the bank item, however an entry of its own changes it.
  abbrev pub Shows : BankItem → Type 0
  Shows it =
      (bi : BuildItem)
      → bi.id ≡ it.id
      → bi.anchor ≡ record { item_ids = it.id ∷ []; size_id = none }
      → P bi

  abbrev pub ShowsItems : Indexed → List BankItem → Type 0
  ShowsItems x = All (λ (it : BankItem).
      (contains x.merged it.id || hides (lookup it.id x.by_item)) ≡ false → Shows it)

  abbrev pub ShowsCategories : Rules → Indexed → List BankCategory → Type 0
  ShowsCategories rules x = All (λ (cat : BankCategory).
      (not cat.available || contains rules.hidden_categories cat.id) ≡ false
      → ShowsItems x cat.items)

  abbrev pub ShowsMenus : Rules → Indexed → List BankMenu → Type 0
  ShowsMenus rules x =
      All (λ (m : BankMenu). m.available ≡ true → ShowsCategories rules x m.categories)

  want_photo-IsGrouped :
      (rules : Rules) (it : BankItem) (bi : BuildItem) (c : Compiler)
      → IsGrouped P c
      → IsGrouped P (want_photo rules it bi c)
  want_photo-IsGrouped rules it bi c v =
      if-IsGrouped P (rules.require_photo && str_eq bi.photo "") _ c (attention-IsGrouped P _ c v) v

  if-AreListed :
      (b : Bool) (c d : Compiler) (ids : List String)
      → AreListed c.group_seen ids
      → AreListed d.group_seen ids
      → AreListed (if b then c else d).group_seen ids
  if-AreListed true c d ids p q = p
  if-AreListed false c d ids p q = q

  want_photo-AreListed :
      (rules : Rules) (it : BankItem) (bi : BuildItem) (c : Compiler) (ids : List String)
      → AreListed c.group_seen ids
      → AreListed (want_photo rules it bi c).group_seen ids
  want_photo-AreListed rules it bi c ids p =
      if-AreListed (rules.require_photo && str_eq bi.photo "") _ c ids p p

  record ShowsOne (it : BankItem) (c : Compiler) (x : BuildItem × Compiler) : Type 0 where
    grouped : IsGrouped P x.1
    listed : AreListed x.1.group_seen x.0.modifier_group_ids
    id : x.0.id ≡ it.id
    anchor : x.0.anchor ≡ record { item_ids = it.id ∷ []; size_id = none }

  show_item-ShowsOne :
      (bank : Bank) (rules : Rules) (it : BankItem) (e : Option Entry) (c : Compiler)
      → AreKeyed bank.groups
      → IsGrouped P c
      → ShowsOne it c (show_item bank rules it e c)
  unfolding show_item
  show_item-ShowsOne bank rules it none c k v =
      let s = groups-Sees P bank rules it.group_ids c k v in
      let bi = (show_item bank rules it none c).0 in
      record {
        grouped = want_photo-IsGrouped rules it bi _ s.grouped;
        listed = want_photo-AreListed rules it bi _ _ s.uses;
        id = refl;
        anchor = refl;
      }
  show_item-ShowsOne bank rules it (some e) c k v =
      let s = groups-Sees P bank rules it.group_ids c k v in
      let bi = (show_item bank rules it (some e) c).0 in
      record {
        grouped = want_photo-IsGrouped rules it bi _ s.grouped;
        listed = want_photo-AreListed rules it bi _ _ s.uses;
        id = refl;
        anchor = refl;
      }

  show_one-IsGrouped :
      (tables : CaseTables) (bank : Bank) (rules : Rules) (x : Indexed) (cat : BankCategory)
      (at : ℤ) (it : BankItem) (c : Compiler) (hidden : Bool)
      → AreKeyed bank.groups
      → (hidden ≡ false → Shows it)
      → IsGrouped P c
      → let e = lookup it.id x.by_item in
        let shown = show_item bank rules it e c in
        IsGrouped P (if hidden then c else put_shown tables cat at e shown.0 shown.1)
  show_one-IsGrouped tables bank rules x cat at it c true k h v = v
  show_one-IsGrouped tables bank rules x cat at it c false k h v =
      let e = lookup it.id x.by_item in
      let s = show_item-ShowsOne bank rules it e c k v in
      put_shown-IsGrouped P tables cat at e _ _ (s.listed, h refl _ s.id s.anchor) s.grouped

  show_items-IsGrouped :
      (tables : CaseTables) (bank : Bank) (rules : Rules) (x : Indexed) (cat : BankCategory)
      (at : ℤ) (its : List BankItem) (c : Compiler)
      → AreKeyed bank.groups
      → ShowsItems x its
      → IsGrouped P c
      → IsGrouped P (show_items tables bank rules x cat at its c)
  unfolding show_items
  show_items-IsGrouped tables bank rules x cat at [] c k h v = v
  show_items-IsGrouped tables bank rules x cat at (it ∷ its) c k (h, hs) v =
      show_items-IsGrouped tables bank rules x cat at its _ k hs
        (show_one-IsGrouped tables bank rules x cat at it c _ k h v)

  show_category-IsGrouped :
      (tables : CaseTables) (bank : Bank) (rules : Rules) (x : Indexed) (cat : BankCategory)
      (at : ℤ) (c : Compiler) (hidden : Bool)
      → AreKeyed bank.groups
      → (hidden ≡ false → ShowsItems x cat.items)
      → IsGrouped P c
      → IsGrouped P (
          if hidden
          then c
          else show_items tables bank rules x cat at cat.items
              (record c { cat_pos = insert cat.id at c.cat_pos }))
  show_category-IsGrouped tables bank rules x cat at c true k h v = v
  show_category-IsGrouped tables bank rules x cat at c false k h v =
      show_items-IsGrouped tables bank rules x cat at cat.items _ k (h refl)
        (record { listed = v.listed; once = v.once; good = v.good })

  show_categories-IsGrouped :
      (tables : CaseTables) (bank : Bank) (rules : Rules) (x : Indexed) (cats : List BankCategory)
      (n : ℕ) (c : Compiler)
      → AreKeyed bank.groups
      → ShowsCategories rules x cats
      → IsGrouped P c
      → IsGrouped P (show_categories tables bank rules x cats n c).1
  unfolding show_categories
  show_categories-IsGrouped tables bank rules x [] n c k h v = v
  show_categories-IsGrouped tables bank rules x (cat ∷ cats) n c k (h, hs) v =
      show_categories-IsGrouped tables bank rules x cats (suc n) _ k hs
        (show_category-IsGrouped tables bank rules x cat (pos (suc n)) c _ k h v)

  show_menu-IsGrouped :
      (tables : CaseTables) (bank : Bank) (rules : Rules) (x : Indexed) (cats : List BankCategory)
      (n : ℕ) (c : Compiler) (available : Bool)
      → AreKeyed bank.groups
      → (available ≡ true → ShowsCategories rules x cats)
      → IsGrouped P c
      → IsGrouped P
          (if not available then (n, c) else show_categories tables bank rules x cats n c).1
  show_menu-IsGrouped tables bank rules x cats n c true k h v =
      show_categories-IsGrouped tables bank rules x cats n c k (h refl) v
  show_menu-IsGrouped tables bank rules x cats n c false k h v = v

  pub show_menus-IsGrouped :
      (tables : CaseTables) (bank : Bank) (rules : Rules) (x : Indexed) (ms : List BankMenu) (n : ℕ)
      (c : Compiler)
      → AreKeyed bank.groups
      → ShowsMenus rules x ms
      → IsGrouped P c
      → IsGrouped P (show_menus tables bank rules x ms n c)
  unfolding show_menus
  show_menus-IsGrouped tables bank rules x [] n c k h v = v
  show_menus-IsGrouped tables bank rules x (m ∷ ms) n c k (h, hs) v =
      show_menus-IsGrouped tables bank rules x ms _ _ k hs
        (show_menu-IsGrouped tables bank rules x m.categories n c m.available k h v)
