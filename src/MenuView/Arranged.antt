-- ===== src/MenuView/Arranged.antt =====
-- backend/internal/domain/menuview/compile.go, the end of `compiler.run`: the order of a build.
use posserver.Prelude.{
  All, ◌≡◌, refl, ◌∙◌, inl, inr, Bool, true, false, List, [], ◌∷◌, arith, Bool-cases,
}
use posserver.Prelude.Int.{ℤ, ltb_ℤ}
use posserver.Prelude.Strings.{CaseTables}
use posserver.Prelude.Sort.{
  sort_stable-All, insert_sorted, insert_sorted, sort_stable, InOrder, sort_stable-InOrder,
}
use posserver.MenuView.Types.{BuildItem, BuildCategory}
use posserver.MenuView.Bank.{Bank}
use posserver.MenuView.View.{View, Kind, Entry, vendor, web, operator, counter}
use posserver.MenuView.Compiler.{Compiler}
use posserver.MenuView.Build.{
  UnmatchedName, Build, run, no_items, sorted_items, filled, sorted_categories, compiled,
  empty_build, compile_kind, compile_vendor, compile,
}

abbrev pub category_before : BuildCategory → BuildCategory → Bool
category_before a b = ltb_ℤ a.position b.position

abbrev pub item_before : BuildItem → BuildItem → Bool
item_before a b = ltb_ℤ a.position b.position

-- There are items, in the order of their positions.
abbrev pub IsFilled : BuildCategory → Type 0
IsFilled cat = (no_items cat.items ≡ false) × InOrder item_before cat.items

no_items-insert :
    (i : BuildItem) (is : List BuildItem) → no_items (insert_sorted item_before i is) ≡ false
unfolding insert_sorted
no_items-insert i [] = refl
no_items-insert i (j ∷ js) = ground arith

no_items-sort : (its : List BuildItem) → no_items (sort_stable item_before its) ≡ no_items its
unfolding sort_stable
no_items-sort [] = refl
no_items-sort (i ∷ is) = no_items-insert i (sort_stable item_before is)

before_asym : (m n : ℤ) → ltb_ℤ m n ≡ true → ltb_ℤ n m ≡ false
before_asym m n h = ground arith

items_asym : (a b : BuildItem) → item_before a b ≡ true → item_before b a ≡ false
items_asym a b = before_asym a.position b.position

categories_asym : (a b : BuildCategory) → category_before a b ≡ true → category_before b a ≡ false
categories_asym a b = before_asym a.position b.position

filled-IsFilled : (cats : List BuildCategory) → All IsFilled (filled cats)
unfolding filled sorted_items
filled-IsFilled [] = tt
filled-IsFilled (cat ∷ cats) = elim (Bool-cases (no_items cat.items)) [
  | inl empty ↦ rw empty (filled-IsFilled cats)
  | inr full ↦ rw full (
    (no_items-sort cat.items ∙ full, sort_stable-InOrder item_before items_asym cat.items),
    filled-IsFilled cats,
  )
]

abbrev IsArranged : Build → Type 0
IsArranged b = InOrder category_before b.categories × All IsFilled b.categories

compiled-IsArranged : (c : Compiler) (b : Build) → IsArranged (compiled c b)
unfolding sorted_categories
compiled-IsArranged c b = (
  sort_stable-InOrder category_before categories_asym (filled c.cats),
  sort_stable-All IsFilled category_before (filled c.cats) (filled-IsFilled c.cats),
)

compile_kind-IsArranged :
    (tables : CaseTables) (bank : Bank) (v : View) (kind : Kind) (es : List Entry)
    (unmatched : List UnmatchedName)
    → IsArranged (compile_kind tables bank v kind es unmatched)
unfolding compile_kind compile_vendor
compile_kind-IsArranged tables bank v vendor es unmatched = (tt, tt)
compile_kind-IsArranged tables bank v web es unmatched =
    compiled-IsArranged (run tables bank v.rules es) (empty_build bank v)
compile_kind-IsArranged tables bank v operator es unmatched =
    compiled-IsArranged (run tables bank v.rules es) (empty_build bank v)
compile_kind-IsArranged tables bank v counter es unmatched =
    compiled-IsArranged (run tables bank v.rules es) (empty_build bank v)
compile_kind-IsArranged tables bank v (Kind.other s) es unmatched =
    compiled-IsArranged (run tables bank v.rules es) (empty_build bank v)

-- The categories of a build are in the order of their positions, none is empty, and the items of each
-- are in the order of their positions.
pub compile-InOrder :
    (tables : CaseTables) (bank : Bank) (v : View) (es : List Entry)
    (unmatched : List UnmatchedName)
    → let b = compile tables bank v es unmatched in
      InOrder category_before b.categories × All IsFilled b.categories
unfolding compile
compile-InOrder tables bank v es unmatched =
    compile_kind-IsArranged tables bank v v.kind es unmatched
