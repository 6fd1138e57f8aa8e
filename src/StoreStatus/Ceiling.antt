-- ===== src/StoreStatus/Ceiling.antt =====
-- backend/internal/domain/storestatus/status.go, `ceilSlot`: its loop ends where it should.
use posserver.Prelude.{ℕ, zero, suc, ◌+◌, ◌*◌, ◌≤◌, ◌<◌, max, ◌≡◌, inl, inr, arith, ltb, Bool-cases}
use posserver.Order.Types.{Time}
use posserver.StoreStatus.Hours.{Zone}
use posserver.StoreStatus.Slots.{slot, rounds, up, ceil_slot}

-- The fuel is enough: the loop stops at the first slot that is not before the time.
up_lem :
    (fuel : ℕ) (base t : Time)
    → t ≤ base + fuel * slot
    → (t ≤ up fuel base t) × (base ≤ up fuel base t) × (up fuel base t < max (base + 1) (t + slot))
unfolding up
up_lem zero base t h = (omega arith, omega arith, omega arith)
up_lem (suc fuel) base t h = ground (arith, up_lem fuel (base + slot) t)

rounds-enough : (from to : Time) → to < from + rounds from to * slot
rounds-enough from to = omega arith

pub ceil_slot-le : (z : Zone) (t : Time) → t ≤ ceil_slot z t
unfolding ceil_slot
ceil_slot-le z t =
    (up_lem (rounds (z.hour_start t) t) (z.hour_start t) t
      (omega (arith, rounds-enough (z.hour_start t) t))).0

up_steps : (fuel : ℕ) (base t : Time) → (k : ℕ) × (up fuel base t ≡ base + k * slot)
unfolding up
up_steps zero base t = (0, omega arith)
up_steps (suc fuel) base t = elim (Bool-cases (ltb base t)) [
  | inl lt ↦ (let r = up_steps fuel (base + slot) t in rw lt (suc r.0, omega (arith, r.1)))
  | inr ge ↦ rw ge (0, omega arith)
]

-- Where the local hour of a time starts at or before it, the loop of `ceilSlot` ends at a whole number of
-- quarters of an hour after that start: the first that is not before the time, less than a quarter later.
pub ceil_slot_lem :
    (z : Zone) (t : Time)
    → z.hour_start t ≤ t
    → let c = ceil_slot z t in
      (t ≤ c) × (c < t + slot) × ((k : ℕ) × (c ≡ z.hour_start t + k * slot))
unfolding ceil_slot
ceil_slot_lem z t h =
    let base = z.hour_start t in
    let fuel = rounds base t in
    let e = up_lem fuel base t (omega (arith, rounds-enough base t)) in
    (e.0, omega (arith, e.2), up_steps fuel base t)
