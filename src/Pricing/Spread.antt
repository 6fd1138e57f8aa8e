-- ===== src/Pricing/Spread.antt =====
-- backend/internal/domain/pricing/engine.go, `Price`, the tax: the rates share out the food after
-- discounts.
use posserver.Prelude.{
  ◌≡◌, refl, ap, ◌∙◌, inl, inr, Bool, true, false, List, [], ◌∷◌, arith, Bool-cases,
}
use posserver.Prelude.Int.{ℤ, pos, ◌+ℤ◌, ◌-ℤ◌, ltb_ℤ, eq_ℤ, ◌<ℤ◌, int_laws, parts_of_eq}
use posserver.Prelude.Sort.{sort_stable, insert_sorted}
use posserver.Pricing.Lines.{Taxed}
use posserver.Pricing.Charges.{add_rate, by_rate, share_of, shares, sorted_rates}

unfoldable pub sum_totals : List Taxed → ℤ
sum_totals [] = pos 0
sum_totals (t ∷ ts) = t.total +ℤ sum_totals ts

-- What is taxed: each rate's food less its share of what came off.
unfoldable pub taxed_food : List Taxed → List ℤ → ℤ
taxed_food [] ss = pos 0
taxed_food (t ∷ ts) [] = pos 0
taxed_food (t ∷ ts) (s ∷ ss) = (t.total -ℤ s) +ℤ taxed_food ts ss

add_rate-sum : (t : Taxed) (us : List Taxed) → sum_totals (add_rate t us) ≡ sum_totals us +ℤ t.total
unfolding add_rate sum_totals
add_rate-sum t [] = omega int_laws
add_rate-sum t (u ∷ us) = elim (Bool-cases (eq_ℤ u.rate t.rate)) [
  | inl e ↦ rw e (omega int_laws)
  | inr n ↦ rw n (omega (int_laws, parts_of_eq _ _ (add_rate-sum t us)))
]

by_rate-sum : (acc ts : List Taxed) → sum_totals (by_rate acc ts) ≡ sum_totals acc +ℤ sum_totals ts
unfolding by_rate sum_totals
by_rate-sum acc [] = omega int_laws
by_rate-sum acc (t ∷ ts) = omega (
  int_laws,
  parts_of_eq _ _ (by_rate-sum (add_rate t acc) ts),
  parts_of_eq _ _ (add_rate-sum t acc),
)

insert_sorted-sum :
    (less : Taxed → Taxed → Bool) (t : Taxed) (us : List Taxed)
    → sum_totals (insert_sorted less t us) ≡ t.total +ℤ sum_totals us
unfolding insert_sorted sum_totals
insert_sorted-sum less t [] = refl
insert_sorted-sum less t (u ∷ us) =
    elim (less u t)
      as (λ b.
        sum_totals (elim b [ true ↦ u ∷ insert_sorted less t us | false ↦ t ∷ u ∷ us ])
        ≡ t.total +ℤ (u.total +ℤ sum_totals us)) [
          | true ↦ omega (int_laws, parts_of_eq _ _ (insert_sorted-sum less t us))
          | false ↦ refl
        ]

sort_stable-sum :
    (less : Taxed → Taxed → Bool) (ts : List Taxed)
    → sum_totals (sort_stable less ts) ≡ sum_totals ts
unfolding sort_stable sum_totals
sort_stable-sum less [] = refl
sort_stable-sum less (t ∷ ts) =
    insert_sorted-sum less t (sort_stable less ts)
    ∙ ap (λ s. t.total +ℤ s) (sort_stable-sum less ts)

pub sorted_rates-sum : (ts : List Taxed) → sum_totals (sorted_rates ts) ≡ sum_totals ts
unfolding sum_totals
sorted_rates-sum ts =
    sort_stable-sum (λ a b. ltb_ℤ a.rate b.rate) (by_rate [] ts)
    ∙ by_rate-sum [] ts
    ∙ omega int_laws

last_share :
    (sub off spread gross : ℤ) → pos 0 <ℤ sub → share_of sub off spread gross true ≡ off -ℤ spread
unfolding share_of
last_share sub off spread gross h = ground arith

-- Of a positive subtotal the shares take all that came off, and the rest is taxed.
pub shared_out :
    (sub off spread : ℤ) (t : Taxed) (ts : List Taxed)
    → pos 0 <ℤ sub
    → taxed_food (t ∷ ts) (shares sub off spread (t ∷ ts)) +ℤ off ≡ sum_totals (t ∷ ts) +ℤ spread
unfolding shares taxed_food sum_totals
shared_out sub off spread t [] h = rw (last_share sub off spread t.total h) (omega int_laws)
shared_out sub off spread t (u ∷ ts) h =
    let share = share_of sub off spread t.total false in
    omega (int_laws, parts_of_eq _ _ (shared_out sub off (spread +ℤ share) u ts h))
