-- ===== src/MenuView/Shelves.antt =====
-- backend/internal/domain/menuview/compile.go: what holds of every item of a build, from the place where
-- an item is put to the sorted categories.
use posserver.Prelude.{
  All, All-append, All-weaken, String, Bool, true, false, List, [], ◌∷◌, arith, if◌then◌else◌,
}
use posserver.Prelude.Int.{ℤ}
use posserver.Prelude.Sort.{sort_stable-All}
use posserver.MenuView.Types.{BuildItem, BuildCategory}
use posserver.MenuView.Compiler.{put_item, open_category}
use posserver.MenuView.Build.{no_items, sorted_items, filled, sorted_categories}

-- Every item of the categories.
abbrev pub AllItems : (BuildItem → Type 0) → List BuildCategory → Type 0
AllItems P = All (λ (cat : BuildCategory). All P cat.items)

pub AllItems-weaken :
    (P Q : BuildItem → Type 0) (cats : List BuildCategory)
    → ((bi : BuildItem) → P bi → Q bi)
    → AllItems P cats
    → AllItems Q cats
AllItems-weaken P Q [] f p = tt
AllItems-weaken P Q (cat ∷ cats) f (p, ps) =
    (All-weaken P Q cat.items f p, AllItems-weaken P Q cats f ps)

if-AllItems :
    (P : BuildItem → Type 0) (b : Bool) (xs ys : List BuildCategory)
    → AllItems P xs
    → AllItems P ys
    → AllItems P (if b then xs else ys)
if-AllItems P true xs ys p q = p
if-AllItems P false xs ys p q = q

module _ (P : BuildItem → Type 0) where
  pub put_item-AllItems :
      (key name : String) (at : ℤ) (bi : BuildItem) (cats : List BuildCategory)
      → P bi
      → AllItems P cats
      → AllItems P (put_item key name at bi cats)
  unfolding put_item
  put_item-AllItems key name at bi [] p q = ((p, tt), tt)
  put_item-AllItems key name at bi (cat ∷ cats) p (q, qs) = ground (
    arith,
    All-append P cat.items (bi ∷ []) q (p, tt),
    put_item-AllItems key name at bi cats p qs,
  )

  pub open_category-AllItems :
      (key name : String) (at : ℤ) (cats : List BuildCategory)
      → AllItems P cats
      → AllItems P (open_category key name at cats)
  unfolding open_category
  open_category-AllItems key name at [] q = (tt, tt)
  open_category-AllItems key name at (cat ∷ cats) (q, qs) =
      ground (arith, open_category-AllItems key name at cats qs)

  filled-AllItems : (cats : List BuildCategory) → AllItems P cats → AllItems P (filled cats)
  unfolding filled sorted_items
  filled-AllItems [] p = tt
  filled-AllItems (cat ∷ cats) (p, ps) =
      if-AllItems P (no_items cat.items) (filled cats) (sorted_items cat ∷ filled cats)
        (filled-AllItems cats ps) (sort_stable-All P _ cat.items p, filled-AllItems cats ps)

  pub built-AllItems :
      (cats : List BuildCategory) → AllItems P cats → AllItems P (sorted_categories (filled cats))
  unfolding sorted_categories
  built-AllItems cats p = sort_stable-All _ _ (filled cats) (filled-AllItems cats p)
