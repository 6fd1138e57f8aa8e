-- ===== src/MenuView/Rule.antt =====
-- backend/internal/domain/menuview/compile.go, `ApplyRule`: a bank price with a channel's markup and
-- rounding.
use posserver.Prelude.{
  ℕ, ◌+◌, ◌*◌, ◌/◌, ◌%◌, ◌≤◌, ◌<◌, String, ◌≡◌, ap, inl, inr, Bool, true, false, not, ◌&&◌, ◌||◌,
  arith, if◌then◌else◌, Bool-cases, str_eq, str_eq_iff,
}
use posserver.Prelude.Int.{ℤ, pos, pos_part, ◌+ℤ◌, ◌-ℤ◌, ◌*ℤ◌, leb_ℤ, eq_ℤ, quot_ℤ}

unfoldable pub marked_up : ℤ → ℤ → ℤ
marked_up cents markup_bps =
    if eq_ℤ markup_bps (pos 0)
    then cents
    else quot_ℤ (cents *ℤ (pos 10_000 +ℤ markup_bps) +ℤ pos 9999) 10_000

-- `p%100` of a price that is not negative; `(p/100)*100 + 99`.
unfoldable pub to_99 : ℤ → ℤ
to_99 p = quot_ℤ p 100 *ℤ pos 100 +ℤ pos 99

abbrev pub ends_99 : ℤ → Bool
ends_99 p = eq_ℤ (p -ℤ quot_ℤ p 100 *ℤ pos 100) (pos 99)

-- The test of the rounding.
abbrev pub rounds_up : ℤ → String → ℤ → Bool
rounds_up markup_bps round p =
    str_eq round "ceil_99" && (not (eq_ℤ markup_bps (pos 0)) || not (ends_99 p))

-- `ApplyRule`.
unfoldable pub apply_rule : ℤ → ℤ → String → ℤ
apply_rule cents markup_bps round =
    if leb_ℤ cents (pos 0)
    then cents
    else (let p = marked_up cents markup_bps in if rounds_up markup_bps round p then to_99 p else p)

-- A markup that is not negative leaves the least whole cent that is not below the marked-up price.
marked_up-least :
    (n m : ℕ)
    → (marked_up (pos n) (pos m) ≡ pos (pos_part (marked_up (pos n) (pos m))))
      × (n * (10_000 + m) ≤ pos_part (marked_up (pos n) (pos m)) * 10_000)
      × (pos_part (marked_up (pos n) (pos m)) * 10_000 < n * (10_000 + m) + 10_000)
unfolding marked_up ◌*ℤ◌ ◌+ℤ◌ quot_ℤ
marked_up-least n m = ground arith

to_99-next :
    (p : ℕ)
    → (to_99 (pos p) ≡ pos (p / 100 * 100 + 99))
      × (p ≤ p / 100 * 100 + 99)
      × (p / 100 * 100 + 99 < p + 100)
unfolding to_99 ◌*ℤ◌ ◌+ℤ◌ quot_ℤ
to_99-next p = ground arith

ends_99-mod : (q : ℕ) → ends_99 (pos q) ≡ true → q % 100 ≡ 99
unfolding quot_ℤ ◌*ℤ◌ ◌-ℤ◌
ends_99-mod q h = ground arith

-- A price that is not rounded up under that rounding ends in 99 already.
stays_99 :
    (markup_bps : ℤ) (round : String) (p : ℤ)
    → rounds_up markup_bps round p ≡ false
    → round ≡ "ceil_99"
    → ends_99 p ≡ true
stays_99 markup_bps round p e r = ground (arith, str_eq_iff round "ceil_99")

-- A price above 0 under a markup that is not negative becomes a whole number of cents that is not
-- below the marked-up price and less than a dollar above it, and that ends in 99 where the rounding is
-- to the next X.99.
pub apply_rule-bounds :
    (n m : ℕ) (round : String)
    → 0 < n
    → (p : ℕ) × (apply_rule (pos n) (pos m) round ≡ pos p)
      × (n * (10_000 + m) ≤ p * 10_000)
      × (p * 10_000 < n * (10_000 + m) + 1_000_000)
      × (round ≡ "ceil_99" → p % 100 ≡ 99)
unfolding apply_rule
apply_rule-bounds n m round h =
    let q = pos_part (marked_up (pos n) (pos m)) in
    let least = marked_up-least n m in
    let next = to_99-next q in
    elim (Bool-cases (rounds_up (pos m) round (pos q))) [
      | inl e ↦ (
        q / 100 * 100 + 99,
        ground (arith, least.0, ap to_99 least.0, next.0, ap (rounds_up (pos m) round) least.0),
        omega (arith, least.1, next.1),
        omega (arith, least.2, next.2),
        λ r. omega arith,
      )
      | inr e ↦ (
        q,
        ground (arith, least.0, ap (rounds_up (pos m) round) least.0),
        least.1,
        omega (arith, least.2),
        λ r. ends_99-mod q (stays_99 (pos m) round (pos q) e r),
      )
    ]
