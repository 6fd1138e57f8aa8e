-- ===== src/Pricing/Item.antt =====
-- backend/internal/domain/pricing/engine.go: `newEngine` and `price`, one configured item. A map is
-- the list of its entries; each loop is a recursion over its slice, with the variables that it
-- changes as its state.
mod Configured
mod Options
unfoldable pub use Configured.*
unfoldable pub use Options.*
use posserver.Prelude.{
  ℕ, zero, suc, true, not, ◌&&◌, Option, none, some, List, [], ◌∷◌, if◌then◌else◌, get_elem?, take,
  drop, ◌<>◌, lookup,
}
use posserver.Prelude.Int.{ℤ, pos, pos_part, ◌+ℤ◌, ltb_ℤ, sum_ℤ}
use posserver.Prelude.Sort.{sort_stable}
use posserver.MenuView.Types.{BuildItem}
use posserver.Pricing.Types.{unknown_item, sold_out, Selection, World}

-- The charged extras: all but the `free` priciest.
unfoldable pub charge : ℤ → List ℤ → ℤ
charge free extras = sum_ℤ (drop (pos_part free) (sort_stable (λ a b. ltb_ℤ b a) extras))

-- The places of the charged options, counted from `i`.
unfoldable pub charged_from : ℕ → List ResolvedOption → List ℕ
charged_from i [] = []
charged_from i (o ∷ os) =
    let rest = charged_from (suc i) os in
    if ltb_ℤ (pos 0) o.price_cents && not o.removed_default then i ∷ rest else rest

abbrev price_or_zero : Option ResolvedOption → ℤ
price_or_zero none = pos 0
price_or_zero (some o) = o.price_cents

unfoldable pub price_at : List ResolvedOption → ℕ → ℤ
price_at os i = price_or_zero (get_elem? os i)

unfoldable pub include_at : ℕ → List ResolvedOption → List ResolvedOption
include_at i [] = []
include_at zero (o ∷ os) = record o { included = true } ∷ os
include_at (suc i) (o ∷ os) = o ∷ include_at i os

unfoldable pub include_all : List ℕ → List ResolvedOption → List ResolvedOption
unfolding include_at
include_all [] os = os
include_all (i ∷ is) os = include_all is (include_at i os)

-- The priciest `free` charged options, marked as included.
unfoldable pub mark_included : ℤ → List ResolvedOption → List ResolvedOption
unfolding charged_from price_at include_all
mark_included free os =
    include_all
      (take (pos_part free)
        (sort_stable (λ a b. ltb_ℤ (price_at os b) (price_at os a)) (charged_from 0 os)))
      os

-- The end of `price`, from the groups on.
unfoldable pub finish : World → Engine → BuildItem → Selection → ℤ → Chosen → Priced
unfolding price_groups foreign_options charge mark_included
finish w e it sel free (done p) = p
finish w e it sel free (go_on p sizes base out) =
    let stocked = if out then add_issue p sold_out (p.name <> " is sold out right now.") else p in
    let (grouped, extras) = price_groups w e it sel (stocked, []) it.modifier_group_ids in
    let checked = foreign_options it sel.options grouped in
    let charged = charge free extras in
    record checked {
      extras = charged;
      opts = mark_included free checked.opts;
      base = base;
      unit = base +ℤ charged;
    }

abbrev unknown : Priced
unknown = record {
  name = "Unknown item";
  mods = [];
  base = pos 0;
  extras = pos 0;
  unit = pos 0;
  bank_item = "";
  rate_item = "";
  size = "";
  size_name = "";
  choice = "";
  opts = [];
  issues = issue unknown_item "An item in your order is no longer on the menu." ∷ [];
}

unfoldable pub price_item : World → Engine → Selection → ℤ → Option BuildItem → Priced
unfolding finish choose_size choose
price_item w e sel free none = unknown
price_item w e sel free (some it) = finish w e it sel free (choose_size it sel (choose it sel))

-- `price`.
unfoldable pub price : World → Engine → Selection → ℤ → Priced
price w e sel free = price_item w e sel free (lookup sel.item_id e.items)
