-- ===== src/MenuView/Examples.antt =====
-- backend/internal/domain/menuview/compile.go, `ApplyRule`: a pizza of 12.00 marked up by 15.5 %.
use posserver.Prelude.{ℕ, ◌+◌, ◌*◌, ◌%◌, ◌≤◌, ◌<◌, String, ◌≡◌, refl, arith}
use posserver.Prelude.Int.{pos, ◌+ℤ◌, ◌-ℤ◌, ◌*ℤ◌, quot_ℤ}
use posserver.MenuView.Rule.{apply_rule, apply_rule-bounds, marked_up, to_99}

abbrev ceil : String
ceil = "ceil_99"

shown : apply_rule (pos 1200) (pos 1550) "ceil_99" ≡ pos 1399
unfolding apply_rule marked_up to_99 quot_ℤ ◌*ℤ◌ ◌+ℤ◌ ◌-ℤ◌
shown = refl

apply_rule-bounds_example :
    (p : ℕ) × (apply_rule (pos 1200) (pos 1550) ceil ≡ pos p)
    × (1200 * (10_000 + 1550) ≤ p * 10_000)
    × (p * 10_000 < 1200 * (10_000 + 1550) + 1_000_000)
    × (ceil ≡ ceil → p % 100 ≡ 99)
apply_rule-bounds_example = apply_rule-bounds 1200 1550 ceil (omega arith)
