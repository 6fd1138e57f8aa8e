-- ===== src/Pricing/SameLines.antt =====
-- backend/internal/domain/pricing/engine.go, `Price`: the steps of a bundle add no line of their own.
use posserver.Prelude.{
  ℕ, String, ◌≡◌, refl, ◌∙◌, Bool, true, false, Option, some, List, [], ◌∷◌, if◌then◌else◌,
}
use posserver.Prelude.Int.{ℤ}
use posserver.Pricing.Types.{IssueCode, Quote, World, Deal, Slot, Selection, Issue}
use posserver.Pricing.Item.{Engine}
use posserver.Pricing.Lines.{add_error, add_errors, Bundling, fill_slot, fill_slots}
use posserver.Pricing.Types.{IssueCode}
use posserver.Pricing.Lines.{add_error}
use posserver.Pricing.Totals.{add_error-Keeps}

-- The same lines.
pub record SameLines (q r : Quote) : Type 0 where
  pub lines : r.lines ≡ q.lines

pub none_added : (q : Quote) → SameLines q q
none_added q = record { lines = refl }

pub if-SameLines :
    (q : Quote) (b : Bool) (x y : Quote)
    → SameLines q x
    → SameLines q y
    → SameLines q (if b then x else y)
if-SameLines q true x y p p' = p
if-SameLines q false x y p p' = p'

pub error_after :
    (q r : Quote) (c : IssueCode) (m : String) (l : Option ℕ)
    → SameLines q r
    → SameLines q (add_error c m l r)
error_after q r c m l k = record { lines = (add_error-Keeps c m l r).lines ∙ k.lines }

pub errors_after :
    (q r : Quote) (index : ℕ) (is : List Issue)
    → SameLines q r
    → SameLines q (add_errors index is r)
unfolding add_errors
errors_after q r index [] k = k
errors_after q r index (i ∷ is) k =
    errors_after q (add_error i.code i.message (some index) r) index is
      (error_after q r i.code i.message (some index) k)

pub saved_after : (q r : Quote) (n : ℤ) → SameLines q r → SameLines q (record r { saved_cents = n })
saved_after q r n k = record { lines = k.lines }

pub ruleset line_rules = (none_added, if-SameLines, error_after, errors_after, saved_after)

fill_slot-SameLines :
    (w : World) (e : Engine) (index : ℕ) (d : Deal) (s : Slot) (pick : Selection) (b : Bundling)
    (q : Quote)
    → SameLines q b.quote
    → SameLines q (fill_slot w e index d s pick b).quote
unfolding fill_slot
fill_slot-SameLines w e index d s pick b q k = search line_rules

pub fill_slots-SameLines :
    (w : World) (e : Engine) (index : ℕ) (d : Deal) (slots : List Slot) (picks : List Selection)
    (b : Bundling) (q : Quote)
    → SameLines q b.quote
    → SameLines q (fill_slots w e index d slots picks b).quote
unfolding fill_slots
fill_slots-SameLines w e index d [] picks b q k = k
fill_slots-SameLines w e index d (s ∷ slots) [] b q k =
    fill_slots-SameLines w e index d slots [] _ q (error_after q b.quote _ _ _ k)
fill_slots-SameLines w e index d (s ∷ slots) (pick ∷ picks) b q k =
    fill_slots-SameLines w e index d slots picks _ q (fill_slot-SameLines w e index d s pick b q k)
