-- ===== src/RateLimit.antt =====
-- backend/internal/shared/ratelimit/ratelimit.go: events counted in a sliding window. The lock makes
-- each call one step; the clock's answer is an argument. A time is in nanoseconds; a limit is a
-- natural number, as every caller's is. `now.Sub(t) < window` is `now < t + window`.
pub mod Entries
pub mod Log
pub mod Retry
pub mod Sorted
pub mod Spans
pub mod Limited
mod Examples
use posserver.Prelude.{
  ℕ, ◌+◌, ◌-◌, String, Bool, true, false, Option, none, some, List, [], ◌∷◌, ◌++◌, ltb,
  if◌then◌else◌, length, get_elem?, lookup, insert, delete,
}
use posserver.Order.Types.{Time}

pub record Window : Type 0 where
  pub max : ℕ
  pub window : ℕ
  pub hits : List (String × List Time)

-- Past that many keys `Add` prunes them all.
abbrev pub max_keys : ℕ
max_keys = 10_000

-- `New`.
unfoldable pub new : ℕ → ℕ → Window
new max window = record { max = max; window = window; hits = [] }

abbrev times : Option (List Time) → List Time
times none = []
times (some ts) = ts

-- `w.hits[key]`.
unfoldable pub hits_of : String → Window → List Time
hits_of key w = times (lookup key w.hits)

-- The loop of `prune`: the events that are younger than the window.
unfoldable pub keep : Time → ℕ → List Time → List Time
keep now window [] = []
keep now window (t ∷ ts) =
    let rest = keep now window ts in if ltb now (t + window) then t ∷ rest else rest

abbrev pub is_empty : List Time → Bool
is_empty [] = true
is_empty (t ∷ ts) = false

-- `prune`: what is kept, and the window without the rest.
unfoldable pub prune : String → Time → Window → List Time × Window
prune key now w =
    let kept = keep now w.window (hits_of key w) in
    (kept, record w { hits = if is_empty kept then delete key w.hits else insert key kept w.hits })

-- `AllowN`.
unfoldable pub allow_n : String → ℕ → Time → Window → Bool × Window
allow_n key max now w = let p = prune key now w in (ltb (length p.0) max, p.1)

-- `Allow`.
unfoldable pub allow : String → Time → Window → Bool × Window
allow key now w = allow_n key w.max now w

-- The time from `now` until the hit is out of the window.
abbrev pub until_out : Option Time → ℕ → Time → Option ℕ
until_out none window now = none
until_out (some t) window now = some (t + window - now)

-- `RetryAfterN`; `none` is the index out of range, of a limit of 0.
unfoldable pub retry_after_n : String → ℕ → Time → Window → Option ℕ × Window
retry_after_n key max now w =
    let p = prune key now w in
    (
      if ltb (length p.0) max
          then some 0
          else until_out (get_elem? p.0 (length p.0 - max)) w.window now,
      p.1,
    )

-- `RetryAfter`.
unfoldable pub retry_after : String → Time → Window → Option ℕ × Window
retry_after key now w = retry_after_n key w.max now w

-- The loop of `Add` over the map.
unfoldable pub prune_keys : List (String × List Time) → Time → Window → Window
prune_keys [] now w = w
prune_keys ((key, ts) ∷ m) now w = prune_keys m now (prune key now w).1

-- `Add`.
unfoldable pub add : String → Time → Window → Window
add key now w =
    let w1 = if ltb max_keys (length w.hits) then prune_keys w.hits now w else w in
    let p = prune key now w1 in record p.1 { hits = insert key (p.0 ++ now ∷ []) p.1.hits }

-- `Reset`.
unfoldable pub reset : String → Window → Window
reset key w = record w { hits = delete key w.hits }
