-- ===== src/Prelude/Sort.antt =====
-- `sort.SliceStable` of the standard library: a stable insertion sort by a Boolean `less`.
use mathlib.Core.Bool.{Bool, true, false}
use mathlib.Core.Path.{◌≡◌}
use posserver.Prelude.Lists.{All}
use native.Mathlib.Omega.{arith}
use mathlib.Core.List.{List, [], ◌∷◌}

module _ {ℓ} {A : Type ℓ} (less : A → A → Bool) where
  -- `x` goes before the first element that is not less than it: equal elements keep their order.
  unfoldable pub insert_sorted : A → List A → List A
  insert_sorted x [] = x ∷ []
  insert_sorted x (y ∷ ys) = elim (less y x) [ true ↦ y ∷ insert_sorted x ys | false ↦ x ∷ y ∷ ys ]

  unfoldable pub sort_stable : List A → List A
  unfolding insert_sorted
  sort_stable [] = []
  sort_stable (x ∷ xs) = insert_sorted x (sort_stable xs)

  -- No element is less than the one before it.
  abbrev pub InOrder : List A → Type 0
  InOrder [] = Unit
  InOrder (x ∷ []) = Unit
  InOrder (x ∷ y ∷ ys) = (less y x ≡ false) × InOrder (y ∷ ys)

  insert_sorted-InOrder :
      ((x y : A) → less x y ≡ true → less y x ≡ false)
      → (x : A) (ys : List A) → InOrder ys
      → InOrder (insert_sorted x ys)
  unfolding insert_sorted
  insert_sorted-InOrder asym x [] o = tt
  insert_sorted-InOrder asym x (y ∷ []) o = ground (arith, asym y x)
  insert_sorted-InOrder asym x (y ∷ z ∷ ys) o =
      ground (arith, asym y x, insert_sorted-InOrder asym x (z ∷ ys) o.1)

  pub sort_stable-InOrder :
      ((x y : A) → less x y ≡ true → less y x ≡ false) → (xs : List A) → InOrder (sort_stable xs)
  unfolding sort_stable
  sort_stable-InOrder asym [] = tt
  sort_stable-InOrder asym (x ∷ xs) =
      insert_sorted-InOrder asym x (sort_stable xs) (sort_stable-InOrder asym xs)

module _ {ℓ κ} {A : Type ℓ} (P : A → Type κ) (less : A → A → Bool) where
  insert_sorted-All : (x : A) (ys : List A) → P x → All P ys → All P (insert_sorted less x ys)
  unfolding insert_sorted
  insert_sorted-All x [] p q = (p, tt)
  insert_sorted-All x (y ∷ ys) p (q, qs) =
      elim (less y x)
        as (λ b. All P (elim b [ true ↦ y ∷ insert_sorted less x ys | false ↦ x ∷ y ∷ ys ])) [
          | true ↦ (q, insert_sorted-All x ys p qs)
          | false ↦ (p, (q, qs))
        ]

  pub sort_stable-All : (xs : List A) → All P xs → All P (sort_stable less xs)
  unfolding sort_stable
  sort_stable-All [] p = tt
  sort_stable-All (x ∷ xs) (p, ps) =
      insert_sorted-All x (sort_stable less xs) p (sort_stable-All xs ps)
