-- ===== src/Dispatch/Backoff.antt =====
-- backend/internal/dispatch/dispatcher.go, `backoffDelay`: how long a failed dispatch waits. A duration
-- is its nanoseconds, an `int64`: a shift wraps around modulo 2^64 and is negative from 2^63 on.
use native.Mathlib.Nat.{one-le-pow, pow-le-pow_right}
use posserver.Prelude.{
  ℕ, zero, suc, ◌+◌, ◌-◌, ◌*◌, ◌/◌, ◌%◌, ◌^◌, ◌≤◌, ◌<◌, min, ◌≡◌, refl, inl, inr, Bool, true, false,
  ◌&&◌, arith, ltb, ◌==◌, if◌then◌else◌, ltb→lt, ==_iff, Bool-cases,
}

abbrev second : ℕ
second = 1_000_000_000

abbrev pub transient_backoff_base : ℕ
transient_backoff_base = 1 * second

abbrev pub transient_backoff_cap : ℕ
transient_backoff_cap = 30 * second

abbrev pub permanent_backoff_base : ℕ
permanent_backoff_base = 5 * second

abbrev pub permanent_backoff_cap : ℕ
permanent_backoff_cap = 600 * second

abbrev pub base_of : Bool → ℕ
base_of transient = if transient then transient_backoff_base else permanent_backoff_base

abbrev pub cap_of : Bool → ℕ
cap_of transient = if transient then transient_backoff_cap else permanent_backoff_cap

-- `base << uint(attempts)`, where it is positive and below the cap.
unfoldable pub shifted : ℕ → ℕ → ℕ → ℕ
shifted base attempts max_delay =
    let exp = base * 2 ^ attempts % 2 ^ 64 in
    if ltb 0 exp && ltb exp (2 ^ 63) && ltb exp max_delay then exp else max_delay

-- The delay without its jitter.
unfoldable pub full_delay : ℕ → Bool → ℕ
unfolding shifted
full_delay attempts transient =
    if ltb attempts 32
    then shifted (base_of transient) attempts (cap_of transient)
    else cap_of transient

unfoldable pub backoff_delay : ℕ → Bool → (ℕ → ℕ) → ℕ
unfolding full_delay
backoff_delay attempts transient rand_n =
    let d = full_delay attempts transient in let half = d / 2 in half + rand_n (d - half + 1)

-- No shift of fewer than 32 places that wraps around passes for a short delay.
capped : Bool → ℕ → Bool
capped transient attempts =
    shifted (base_of transient) attempts (cap_of transient)
    == min (cap_of transient) (base_of transient * 2 ^ attempts)

-- `capped` for each number of attempts below `k`.
capped_to : ℕ → Bool → Bool
capped_to zero transient = true
capped_to (suc k) transient = if capped transient k then capped_to k transient else false

capped_to-capped :
    (transient : Bool) (attempts k : ℕ)
    → attempts < k
    → capped_to k transient ≡ true
    → capped transient attempts ≡ true
unfolding capped_to
capped_to-capped transient attempts zero h all = absurd (omega arith)
capped_to-capped transient attempts (suc k) h all =
    let earlier = capped_to-capped transient attempts k in ground (arith, earlier)

capped_32 : (transient : Bool) → capped_to 32 transient ≡ true
unfolding capped_to capped shifted
capped_32 true = refl
capped_32 false = refl

pow_pos : (n : ℕ) → 1 ≤ 2 ^ n
pow_pos n = one-le-pow n 2 (omega arith)

-- From 32 places on the cap applies.
cap-le : (transient : Bool) (n : ℕ) → 32 ≤ n → cap_of transient ≤ base_of transient * 2 ^ n
cap-le transient n h = big transient (pow-le-pow_right {n = 2} (omega arith) h)
  where
    big : (transient : Bool) → 4_294_967_296 ≤ 2 ^ n → cap_of transient ≤ base_of transient * 2 ^ n
    big true p = omega arith
    big false p = omega arith

full_delay-min :
    (attempts : ℕ) (transient : Bool)
    → full_delay attempts transient ≡ min (cap_of transient) (base_of transient * 2 ^ attempts)
unfolding full_delay
full_delay-min attempts transient = elim (Bool-cases (ltb attempts 32)) [
  | inl h ↦ rw h (
      unfold capped in
      (==_iff _ _).0
        (capped_to-capped transient attempts 32 (ltb→lt attempts 32 h) (capped_32 transient)))
  | inr h ↦ rw h (omega (arith, cap-le transient attempts (ground arith)))
]

delay_pos :
    (attempts : ℕ) (transient : Bool)
    → 2 ≤ min (cap_of transient) (base_of transient * 2 ^ attempts)
delay_pos attempts true = omega (arith, pow_pos attempts)
delay_pos attempts false = omega (arith, pow_pos attempts)

-- The delay is between half of `min(cap, base·2^attempts)` and all of it, for any number of attempts,
-- where `randN(n)` is below `n`: it is never zero, the shift never overflows into a short one, and it
-- never passes the cap.
pub backoff_delay_bounds :
    (attempts : ℕ) (transient : Bool) (rand_n : ℕ → ℕ)
    → ((n : ℕ) → 0 < n → rand_n n < n)
    → let d = min (cap_of transient) (base_of transient * 2 ^ attempts) in
      let delay = backoff_delay attempts transient rand_n in
      (d / 2 ≤ delay) × (delay ≤ d) × (0 < delay)
unfolding backoff_delay
backoff_delay_bounds attempts transient rand_n h =
    let d = full_delay attempts transient in
    omega (
      arith,
      full_delay-min attempts transient,
      h (d - d / 2 + 1) (omega arith),
      delay_pos attempts transient,
    )
