-- ===== src/MenuView/Placed.antt =====
-- backend/internal/domain/menuview/compile.go, `compiler.merge` and `compiler.augment`: what holds of
-- every item of a build, where `P` holds of every item that an entry makes.
use posserver.Prelude.{
  All, String, ◌≡◌, refl, inl, inr, Bool, true, false, not, ◌||◌, Option, none, some, List, [], ◌∷◌,
  ltb, if◌then◌else◌, Bool-cases, length, contains, lookup,
}
use posserver.Prelude.Int.{ℤ}
use posserver.Prelude.Strings.{CaseTables, trim_space}
use posserver.MenuView.Types.{BuildItem}
use posserver.MenuView.Bank.{Bank, BankMenu, BankCategory, BankItem}
use posserver.MenuView.Bank
use posserver.MenuView.View.{
  Rules, Entry, EntryKind, entry_item, entry_merge, entry_augment, entry_map,
}
use posserver.MenuView.Compiler.{attention, Compiler}
use posserver.MenuView.Compile.{is_set}
use posserver.MenuView.Entries.{
  first_cat, anchor_gone, Merging, place, merge_found, merge_items, merge_first, merge,
  augment_items, augment_with, augment_priced, augment, add_entry, add_entries, Augmented, sold,
  ended, sells, place_in, place_at,
}
use posserver.MenuView.Grouped.{
  AreKeyed, AreListed, IsGood, IsGrouped, groups-Sees, put-IsGrouped, put_named-IsGrouped,
  if-IsGrouped, attention-IsGrouped,
}

module _ (P : BuildItem → Type 0) where
  -- `P` holds of what the entry makes.
  abbrev pub Makes : Entry → Type 0
  Makes e =
      e.hidden ≡ false
      → (bi : BuildItem) → bi.id ≡ e.id
      → bi.anchor ≡ record { item_ids = e.anchor.item_ids; size_id = none }
      → P bi

  abbrev pub MakesOf : EntryKind → Entry → Type 0
  MakesOf entry_merge e = Makes e
  MakesOf entry_augment e = Makes e
  MakesOf _ e = Unit

  abbrev pub MakesAll : List Entry → Type 0
  MakesAll = All (λ (e : Entry). MakesOf e.kind e)

  place_at-IsGrouped :
      (cat : BankCategory) (bi : BuildItem) (c : Compiler) (at : Option ℤ)
      → IsGood P c.group_seen bi
      → IsGrouped P c
      → IsGrouped P (place_at cat bi c at)
  place_at-IsGrouped cat bi c none p v = v
  place_at-IsGrouped cat bi c (some at) p v = put-IsGrouped P cat.id cat.name at bi c p v

  place_in-IsGrouped :
      (bi : BuildItem) (c : Compiler) (cat : Option BankCategory)
      → IsGood P c.group_seen bi
      → IsGrouped P c
      → IsGrouped P (place_in bi c cat)
  place_in-IsGrouped bi c none p v = v
  place_in-IsGrouped bi c (some cat) p v = place_at-IsGrouped cat bi c (lookup cat.id c.cat_pos) p v

  place-IsGrouped :
      (tables : CaseTables) (e : Entry) (bi : BuildItem) (cat : Option BankCategory) (c : Compiler)
      → Makes e
      → bi.id ≡ e.id
      → bi.anchor ≡ record { item_ids = e.anchor.item_ids; size_id = none }
      → AreListed c.group_seen bi.modifier_group_ids
      → IsGrouped P c
      → IsGrouped P (place tables e bi cat c)
  unfolding place
  place-IsGrouped tables e bi cat c m i a l v = elim (Bool-cases e.hidden) [
    | inl h ↦ rw h v
    | inr h ↦ rw h (
        if-IsGrouped P (is_set e.category) _ _
          (put_named-IsGrouped P tables (trim_space e.category) _ bi c (l, m h bi i a) v)
          (place_in-IsGrouped bi c cat (l, m h bi i a) v))
  ]

  if-merging :
      (b : Bool) (m m' : Merging)
      → IsGrouped P m.compiler
      → IsGrouped P m'.compiler
      → IsGrouped P (if b then m else m').compiler
  if-merging true m m' p q = p
  if-merging false m m' p q = q

  merge_found-IsGrouped :
      (bank : Bank) (rules : Rules) (e : Entry) (id : String)
      (found : Option (BankItem × BankCategory)) (m : Merging)
      → IsGrouped P m.compiler
      → IsGrouped P (merge_found bank rules e id found m).compiler
  unfolding merge_found
  merge_found-IsGrouped bank rules e id none m v = attention-IsGrouped P _ m.compiler v
  merge_found-IsGrouped bank rules e id (some (it, cat)) m v =
      if-merging (not (sells m.compiler id) || contains m.compiler.view_hidden id) m _ v v

  merge_items-IsGrouped :
      (bank : Bank) (rules : Rules) (e : Entry) (ids : List String) (m : Merging)
      → IsGrouped P m.compiler
      → IsGrouped P (merge_items bank rules e ids m).compiler
  unfolding merge_items
  merge_items-IsGrouped bank rules e [] m v = v
  merge_items-IsGrouped bank rules e (id ∷ ids) m v =
      merge_items-IsGrouped bank rules e ids _
        (merge_found-IsGrouped bank rules e id (Bank.item bank id) m v)

  merge_first-IsGrouped :
      (tables : CaseTables) (bank : Bank) (rules : Rules) (e : Entry)
      (first : Option (BankItem × BankCategory)) (m : Merging)
      → AreKeyed bank.groups
      → Makes e
      → IsGrouped P m.compiler
      → IsGrouped P (merge_first tables bank rules e first m)
  unfolding merge_first
  merge_first-IsGrouped tables bank rules e none m k h v = v
  merge_first-IsGrouped tables bank rules e (some (first, cat)) m k h v =
      let s = groups-Sees P bank rules first.group_ids m.compiler k v in
      place-IsGrouped tables e _ (some cat) _ h refl refl s.uses s.grouped

  merge-IsGrouped :
      (tables : CaseTables) (bank : Bank) (rules : Rules) (e : Entry) (c : Compiler)
      → AreKeyed bank.groups
      → Makes e
      → IsGrouped P c
      → IsGrouped P (merge tables bank rules e c)
  unfolding merge
  merge-IsGrouped tables bank rules e c k h v =
      if-IsGrouped P (ltb (length e.anchor.item_ids) 2) _ _ (attention-IsGrouped P _ c v) (
        merge_first-IsGrouped tables bank rules e _ _ k h (
          merge_items-IsGrouped bank rules e e.anchor.item_ids
            (record { first = none; choices = []; all_out = true; compiler = c }) v))

  abbrev Kept : Augmented → Type 0
  Kept (sold cat out) = Unit
  Kept (ended c) = IsGrouped P c

  if-Kept : (b : Bool) (r s : Augmented) → Kept r → Kept s → Kept (if b then r else s)
  if-Kept true r s p q = p
  if-Kept false r s p q = q

  augment_items-Kept :
      (bank : Bank) (e : Entry) (ids : List String) (cat : Option BankCategory) (out : Bool)
      (c : Compiler)
      → IsGrouped P c
      → Kept (augment_items bank e ids cat out c)
  unfolding augment_items
  augment_items-Kept bank e [] cat out c v = tt
  augment_items-Kept bank e (id ∷ ids) cat out c v =
      elim (Bank.item bank id)
        as (λ (o : Option (BankItem × BankCategory)). Kept (elim o as (λ x. Augmented) [
          | none ↦ ended (attention (anchor_gone e id "a bank item in this added item is gone") c)
          | some x ↦
              (let rest =
                  augment_items bank e ids (first_cat cat x.1) (out || not x.0.in_stock) c in
                if sells c id then rest else ended c)
        ])) [
          | none ↦ attention-IsGrouped P _ c v
          | some (it, found) ↦
              if-Kept (sells c id) _ (ended c)
                (augment_items-Kept bank e ids (first_cat cat found) (out || not it.in_stock) c v) v
        ]

  augment_with-IsGrouped :
      (tables : CaseTables) (e : Entry) (price : ℤ) (r : Augmented) (c : Compiler)
      → Makes e
      → Kept r
      → IsGrouped P c
      → IsGrouped P (augment_with tables e price r c)
  unfolding augment_with
  augment_with-IsGrouped tables e price (sold cat out) c h r v =
      place-IsGrouped tables e _ cat c h refl refl tt v
  augment_with-IsGrouped tables e price (ended c') c h r v = r

  augment_priced-IsGrouped :
      (tables : CaseTables) (bank : Bank) (e : Entry) (price : Option ℤ) (ids : List String)
      (c : Compiler)
      → Makes e
      → IsGrouped P c
      → IsGrouped P (augment_priced tables bank e price ids c)
  unfolding augment_priced
  augment_priced-IsGrouped tables bank e none ids c h v = attention-IsGrouped P _ c v
  augment_priced-IsGrouped tables bank e (some p) [] c h v = attention-IsGrouped P _ c v
  augment_priced-IsGrouped tables bank e (some p) (id ∷ ids) c h v =
      if-IsGrouped P (is_set e.display_name) _ _
        (augment_with-IsGrouped tables e p _ c h
          (augment_items-Kept bank e (id ∷ ids) none false c v) v)
        (attention-IsGrouped P _ c v)

  add_entry-IsGrouped :
      (tables : CaseTables) (bank : Bank) (rules : Rules) (kind : EntryKind) (e : Entry)
      (c : Compiler)
      → AreKeyed bank.groups
      → MakesOf kind e
      → IsGrouped P c
      → IsGrouped P (add_entry tables bank rules kind e c)
  unfolding add_entry augment
  add_entry-IsGrouped tables bank rules entry_merge e c k h v =
      merge-IsGrouped tables bank rules e c k h v
  add_entry-IsGrouped tables bank rules entry_augment e c k h v =
      augment_priced-IsGrouped tables bank e e.price_override_cents e.anchor.item_ids c h v
  add_entry-IsGrouped tables bank rules entry_item e c k h v = v
  add_entry-IsGrouped tables bank rules entry_map e c k h v = v
  add_entry-IsGrouped tables bank rules (EntryKind.other s) e c k h v = v

  pub add_entries-IsGrouped :
      (tables : CaseTables) (bank : Bank) (rules : Rules) (es : List Entry) (c : Compiler)
      → AreKeyed bank.groups
      → MakesAll es
      → IsGrouped P c
      → IsGrouped P (add_entries tables bank rules es c)
  unfolding add_entries
  add_entries-IsGrouped tables bank rules [] c k h v = v
  add_entries-IsGrouped tables bank rules (e ∷ es) c k (h, hs) v =
      add_entries-IsGrouped tables bank rules es _ k hs
        (add_entry-IsGrouped tables bank rules e.kind e c k h v)
