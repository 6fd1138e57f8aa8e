-- ===== src/Pricing/Choice.antt =====
-- backend/internal/domain/pricing/engine.go, `Price`, `best` and `pickOne`: the customer gets the
-- highest of the deals and the code.
use posserver.Prelude.{
  ◌≡◌, refl, ◌⊎◌, inl, inr, Option, none, some, List, [], ◌∷◌, ◌++◌, arith, Bool-cases,
}
use posserver.Prelude.Int.{ℤ, ◌≤ℤ◌, ltb_ℤ, leb_ℤ}
use mathlib.Core.Option.{some-injective, none-ne-some}
use posserver.Pricing.Types.{Quote, Discount}
use posserver.Pricing.Deals.{pick_one, best_auto}

-- None of the discounts is higher.
abbrev pub AreAtMost : ℤ → List Discount → Type 0
AreAtMost n [] = Unit
AreAtMost n (d ∷ ds) = (d.amount_cents ≤ℤ n) × AreAtMost n ds

AreAtMost-mono : (m n : ℤ) (ds : List Discount) → m ≤ℤ n → AreAtMost m ds → AreAtMost n ds
AreAtMost-mono m n [] h p = tt
AreAtMost-mono m n (d ∷ ds) h (p, ps) = (ground arith, AreAtMost-mono m n ds h ps)

abbrev pub Among : Discount → List Discount → Type 0
Among x [] = ⊥
Among x (d ∷ ds) = (x ≡ d) ⊎ Among x ds

-- The fold from `b`: one of all, at least `b` and each of the others.
record Highest (b : Discount) (ds : List Discount) : Type 0 where
  top : Discount
  found : best_auto (some b) ds ≡ some top
  among : (top ≡ b) ⊎ Among top ds
  above : b.amount_cents ≤ℤ top.amount_cents
  all : AreAtMost top.amount_cents ds

best_auto-Highest : (b : Discount) (ds : List Discount) → Highest b ds
unfolding best_auto
best_auto-Highest b [] = record {
  top = b;
  found = refl;
  among = inl refl;
  above = ground arith;
  all = tt;
}
best_auto-Highest b (d ∷ ds) = elim (Bool-cases (ltb_ℤ b.amount_cents d.amount_cents)) [
  | inl e ↦
      let r = best_auto-Highest d ds in
      record {
        top = r.top;
        found = rw e r.found;
        among = inr r.among;
        above = ground (arith, r.above);
        all = (r.above, r.all);
      }
  | inr n ↦
      let r = best_auto-Highest b ds in
      record {
        top = r.top;
        found = rw n r.found;
        among = elim r.among [ inl x ↦ inl x | inr y ↦ inr (inr y) ];
        above = r.above;
        all = (ground (arith, r.above), r.all);
      }
]

-- The highest of the deals and the code.
pub record IsBest (autos : List Discount) (c : Option Discount) (x : Discount) : Type 0 where
  pub among : (c ≡ some x) ⊎ Among x autos
  pub above_code : (k : Discount) → c ≡ some k → k.amount_cents ≤ℤ x.amount_cents
  pub above_deals : AreAtMost x.amount_cents autos

same_code : (k k' : Discount) → some k ≡ some k' → k'.amount_cents ≤ℤ k.amount_cents
same_code k k' e = rw (some-injective k k' e) (ground arith)

≤ℤ-trans : (a b c : ℤ) → a ≤ℤ b → b ≤ℤ c → a ≤ℤ c
≤ℤ-trans a b c p q = ground arith

-- `pickOne` adds the highest of the deals and the code, or nothing where there are none.
pub pick_one-IsBest :
    (autos : List Discount) (c : Option Discount) (q : Quote)
    → let r = pick_one (best_auto none autos) c q in
      ((autos ≡ []) × (c ≡ none) × (r ≡ q))
      ⊎ ((x : Discount) × IsBest autos c x × (r.discounts ≡ q.discounts ++ x ∷ []))
unfolding best_auto pick_one
pick_one-IsBest [] none q = inl (refl, refl, refl)
pick_one-IsBest [] (some k) q =
    inr (
      k,
      record { among = inl refl; above_code = λ k' e. same_code k k' e; above_deals = tt },
      refl,
    )
pick_one-IsBest (d ∷ ds) none q =
    let b = best_auto-Highest d ds in
    inr (
      b.top,
      record {
        among = inr b.among;
        above_code = λ k e. absurd (none-ne-some k e);
        above_deals = (b.above, b.all);
      },
      rw b.found refl,
    )
pick_one-IsBest (d ∷ ds) (some k) q =
    let b = best_auto-Highest d ds in
    elim (Bool-cases (leb_ℤ b.top.amount_cents k.amount_cents)) [
      | inl e ↦ inr (
        k,
        record {
          among = inl refl;
          above_code = same_code k;
          above_deals =
              AreAtMost-mono b.top.amount_cents k.amount_cents (d ∷ ds) (ground arith)
                (b.above, b.all);
        },
        rw (b.found, e) refl,
      )
      | inr n ↦ inr (
        b.top,
        record {
          among = inr b.among;
          above_code = λ k' e.
              ≤ℤ-trans k'.amount_cents k.amount_cents b.top.amount_cents (same_code k k' e)
                (ground arith);
          above_deals = (b.above, b.all);
        },
        rw (b.found, n) refl,
      )
    ]
