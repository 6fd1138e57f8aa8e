-- ===== src/Pricing/Window.antt =====
-- backend/internal/domain/pricing/engine.go, `Live`: the daily window of a deal.
use posserver.Prelude.{ℕ, ◌+◌, ◌-◌, ◌%◌, ◌<◌, ◌≡◌, ◌↔◌, true, some, arith, leb, if◌then◌else◌}
use posserver.Pricing.Live.{in_window}

-- The minutes of a window, which may pass midnight; one that starts where it ends is the whole day.
abbrev pub window : ℕ → ℕ → ℕ
window start end = if leb end start then end + 1440 - start else end - start

-- With both ends the window is the minutes from its start, around midnight.
pub in_window_cyclic :
    (start end now : ℕ)
    → start < 1440
    → end < 1440
    → now < 1440
    → (in_window (some start) (some end) now ≡ true)
      ↔ ((now + 1440 - start) % 1440 < window start end)
unfolding in_window
in_window_cyclic start end now p q r = ground arith
