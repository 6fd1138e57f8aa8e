-- ===== src/RateLimit/Retry.antt =====
-- backend/internal/shared/ratelimit/ratelimit.go, `RetryAfterN`: neither too long nor too short.
use posserver.Prelude.{
  ℕ, zero, suc, ◌+◌, ◌-◌, ◌≤◌, ◌<◌, max, String, ◌≡◌, refl, ap, ◌∙◌, ◌↔◌, inl, inr, Bool, true,
  some, List, [], ◌∷◌, arith, ltb, if◌then◌else◌, Bool-cases, length, get_elem?, str_eq,
  str_eq_refl,
}
use posserver.Order.Types.{Time}
use posserver.RateLimit.{Window, keep, hits_of, prune, allow_n, retry_after_n}
use posserver.RateLimit.Entries.{hits_of-prune}

abbrev pub AtLeast : Time → List Time → Type 0
AtLeast t [] = Unit
AtLeast t (u ∷ us) = (t ≤ u) × AtLeast t us

-- Oldest first.
abbrev pub IsSorted : List Time → Type 0
IsSorted [] = Unit
IsSorted (t ∷ ts) = AtLeast t ts × IsSorted ts

pub AtLeast-keep :
    (now window t : ℕ) (ts : List Time) → AtLeast t ts → AtLeast t (keep now window ts)
unfolding keep
AtLeast-keep now window t [] p = p
AtLeast-keep now window t (u ∷ us) (p, ps) = elim (Bool-cases (ltb now (u + window))) [
  | inl e ↦ rw e (p, AtLeast-keep now window t us ps)
  | inr n ↦ rw n (AtLeast-keep now window t us ps)
]

pub IsSorted-keep : (now window : ℕ) (ts : List Time) → IsSorted ts → IsSorted (keep now window ts)
unfolding keep
IsSorted-keep now window [] s = s
IsSorted-keep now window (t ∷ ts) (p, s) = elim (Bool-cases (ltb now (t + window))) [
  | inl e ↦ rw e (AtLeast-keep now window t ts p, IsSorted-keep now window ts s)
  | inr n ↦ rw n (IsSorted-keep now window ts s)
]

length-keep : (now window : ℕ) (ts : List Time) → length (keep now window ts) ≤ length ts
unfolding keep
length-keep now window [] = omega arith
length-keep now window (t ∷ ts) = ground (arith, length-keep now window ts)

keep_all :
    (now window t : ℕ) (ts : List Time)
    → AtLeast t ts
    → now < t + window
    → length (keep now window ts) ≡ length ts
unfolding keep
keep_all now window t [] p h = refl
keep_all now window t (u ∷ us) (p, ps) h = ground (arith, keep_all now window t us ps h)

entry-AtLeast :
    (t : Time) (ts : List Time) (i u : ℕ) → AtLeast t ts → get_elem? ts i ≡ some u → t ≤ u
entry-AtLeast t [] i u p g = ground arith
entry-AtLeast t (v ∷ vs) zero u (p, ps) g = ground arith
entry-AtLeast t (v ∷ vs) (suc i) u (p, ps) g = entry-AtLeast t vs i u ps g

-- What is kept of a sorted list at the time when its entry at `i` goes out comes after `i`.
kept_after :
    (window now : ℕ) (ts : List Time) (i t : ℕ)
    → IsSorted ts
    → get_elem? ts i ≡ some t
    → t + window ≤ now
    → length (keep now window ts) + suc i ≤ length ts
unfolding keep
kept_after window now [] i t s g h = ground arith
kept_after window now (u ∷ ts) zero t s g h = ground (arith, length-keep now window ts)
kept_after window now (u ∷ ts) (suc i) t (p, s) g h =
    ground (arith, kept_after window now ts i t s g h, entry-AtLeast u ts i t p g)

-- Before that the entry and all after it are kept.
kept_from :
    (window now : ℕ) (ts : List Time) (i t : ℕ)
    → IsSorted ts
    → get_elem? ts i ≡ some t
    → now < t + window
    → length ts ≤ length (keep now window ts) + i
unfolding keep
kept_from window now [] i t s g h = ground arith
kept_from window now (u ∷ ts) zero t (p, s) g h =
    let same : u ≡ t = ground arith in ground (arith, keep_all now window u ts p (ground arith))
kept_from window now (u ∷ ts) (suc i) t (p, s) g h =
    ground (arith, kept_from window now ts i t s g h)

keep_young :
    (now window : ℕ) (ts : List Time) (i t : ℕ)
    → get_elem? (keep now window ts) i ≡ some t
    → now < t + window
unfolding keep
keep_young now window [] i t g = ground arith
keep_young now window (u ∷ ts) zero t g = ground (arith, keep_young now window ts 0 t)
keep_young now window (u ∷ ts) (suc i) t g =
    ground (arith, keep_young now window ts i t, keep_young now window ts (suc i) t)

entry_within : (ts : List Time) (i : ℕ) → i < length ts → (t : ℕ) × (get_elem? ts i ≡ some t)
entry_within [] i h = absurd (ground arith)
entry_within (t ∷ ts) zero h = (t, refl)
entry_within (t ∷ ts) (suc i) h = entry_within ts i (omega arith)

own : (b : Bool) (x y : List Time) → b ≡ true → (if b then x else y) ≡ x
own b x y h = rw h refl

-- What `AllowN` counts after the pruning at `now`.
allowed_later :
    (key : String) (max now later : ℕ) (w : Window)
    → (allow_n key max later (prune key now w).1).0
      ≡ ltb (length (keep later w.window (keep now w.window (hits_of key w)))) max
unfolding allow_n prune
allowed_later key max now later w =
    ap (λ ts. ltb (length (keep later w.window ts)) max)
      (hits_of-prune key key now w ∙ own (str_eq key key) _ _ (str_eq_refl key))

pruned :
    (key : String) (now : ℕ) (w : Window) → (prune key now w).0 ≡ keep now w.window (hits_of key w)
unfolding prune
pruned key now w = refl

module _ (max now : ℕ) (window : ℕ) (ts : List Time) (s : IsSorted ts) where
  -- With room, the count stays below the limit.
  room : (later : ℕ) → length ts < max → ltb (length (keep later window ts)) max ≡ true
  room later h = ground (arith, length-keep later window ts)

  -- Without room there is some from the time on when the entry at `length ts - max` goes out.
  full :
      (later t : ℕ)
      → 0 < max
      → max ≤ length ts
      → get_elem? ts (length ts - max) ≡ some t
      → (ltb (length (keep later window ts)) max ≡ true) ↔ (t + window ≤ later)
  full later t m h g = ground (
    arith,
    λ (q : t + window ≤ later). kept_after window later ts (length ts - max) t s g q,
    λ (q : later < t + window). kept_from window later ts (length ts - max) t s g q,
  )

-- `RetryAfterN` under a limit of at least 1, of a key whose hits are in order: the answer is the wait
-- after which, and not before, `AllowN` allows one more, where nothing is added meanwhile.
pub retry_after_n-exact :
    (key : String) (max now : ℕ) (w : Window)
    → 0 < max
    → IsSorted (hits_of key w)
    → let r = retry_after_n key max now w in
      (wait : ℕ) × (r.0 ≡ some wait)
      × ((later : ℕ) → now ≤ later → ((allow_n key max later r.1).0 ≡ true) ↔ (now + wait ≤ later))
unfolding retry_after_n
retry_after_n-exact key max now w m s =
    let kept = keep now w.window (hits_of key w) in
    let sorted = IsSorted-keep now w.window (hits_of key w) s in
    elim (Bool-cases (ltb (length kept) max)) [
      | inl e ↦ (
        0,
        rw (pruned key now w, e) refl,
        λ later p. ground (
          arith,
          allowed_later key max now later w,
          room max now w.window kept sorted later (ground arith),
        ),
      )
      | inr n ↦
          let (t, g) = entry_within kept (length kept - max) (ground arith) in
          (
            t + w.window - now,
            rw (pruned key now w, n, g) refl,
            λ later p. ground (
              arith,
              allowed_later key max now later w,
              full max now w.window kept sorted later t m (ground arith) g,
              keep_young now w.window (hits_of key w) _ t g,
            ),
          )
    ]
