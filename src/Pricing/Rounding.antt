-- ===== src/Pricing/Rounding.antt =====
-- backend/internal/domain/pricing/engine.go, `Pct`: the whole cent that is nearest.
use posserver.Prelude.{ℕ, zero, suc, ◌+◌, ◌*◌, ◌≤◌, ◌<◌, ◌≡◌, arith}
use posserver.Prelude.Int.{ℤ, pos, negsuc, pos_part, ◌+ℤ◌, ◌*ℤ◌, ◌≤ℤ◌, neg_ℤ, quot_ℤ, parts_of_eq}
use posserver.Pricing.Live.{pct}

-- Of an amount and a rate that are not negative `pct` is the nearest whole cent, a tie going up.
pub pct_nearest :
    (amount bps : ℕ)
    → let cents = pos_part (pct (pos amount) (pos bps)) in
      (pct (pos amount) (pos bps) ≡ pos cents)
      × (cents * 10_000 ≤ amount * bps + 5000)
      × (amount * bps < cents * 10_000 + 5000)
unfolding pct quot_ℤ ◌*ℤ◌ ◌+ℤ◌
pct_nearest amount bps = ground arith

-- A negative amount gives the opposite of what the positive one gives.
pub pct-neg_ℤ : (amount bps : ℤ) → pct (neg_ℤ amount) bps ≡ neg_ℤ (pct amount bps)
unfolding pct quot_ℤ ◌*ℤ◌ ◌+ℤ◌ neg_ℤ
pct-neg_ℤ (pos zero) bps = ground arith
pct-neg_ℤ (pos (suc n)) bps = ground arith
pct-neg_ℤ (negsuc n) bps = ground arith

-- Of an amount and a rate of at most 100 % that are not negative, at most the amount comes off.
pub pct-le :
    (amount bps : ℕ)
    → bps ≤ 10_000
    → (pos 0 ≤ℤ pct (pos amount) (pos bps)) × (pct (pos amount) (pos bps) ≤ℤ pos amount)
pct-le amount bps h =
    let n = pct_nearest amount bps in
    let part : amount * bps ≤ amount * 10_000 = grind arith in
    omega (arith, n.1, n.2, parts_of_eq _ _ n.0)
