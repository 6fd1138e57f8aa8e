-- ===== src/RateLimit/Spans.antt =====
-- backend/internal/shared/ratelimit/ratelimit.go: how many times are in a span, and how many are kept.
use posserver.Prelude.{
  ℕ, ◌+◌, ◌-◌, ◌≤◌, ◌<◌, ◌≡◌, ◌&&◌, List, [], ◌∷◌, ◌++◌, arith, ltb, leb, if◌then◌else◌, length,
}
use posserver.Order.Types.{Time}
use posserver.RateLimit.{keep}

-- The events from `start` on, for one span.
unfoldable pub during : Time → ℕ → List Time → List Time
during start span [] = []
during start span (t ∷ ts) =
    let rest = during start span ts in
    if leb start t && ltb t (start + span) then t ∷ rest else rest

during-append :
    (start span : ℕ) (ts us : List Time)
    → length (during start span (ts ++ us))
      ≡ length (during start span ts) + length (during start span us)
unfolding during
during-append start span [] us = omega arith
during-append start span (t ∷ ts) us = ground (arith, during-append start span ts us)

-- What falls in a span that reaches `now` is still kept at `now`.
during-keep :
    (start span now : ℕ) (ts : List Time)
    → now < start + span
    → length (during start span ts) ≤ length (keep now span ts)
unfolding during keep
during-keep start span now [] h = omega arith
during-keep start span now (t ∷ ts) h = ground (arith, during-keep start span now ts h)

-- Time only takes events away.
keep_mono :
    (now later span : ℕ) (ts : List Time)
    → now ≤ later
    → length (keep later span ts) ≤ length (keep now span ts)
unfolding keep
keep_mono now later span [] h = omega arith
keep_mono now later span (t ∷ ts) h = ground (arith, keep_mono now later span ts h)

kept_more :
    (span later now : ℕ) (ts : List Time)
    → length (keep later span (ts ++ now ∷ [])) ≤ length (keep later span ts) + 1
unfolding keep
kept_more span later now [] = ground arith
kept_more span later now (t ∷ ts) = ground (arith, kept_more span later now ts)

-- For a key: what is kept, with the callers that may still add, and what any span holds.
pub record IsBelow (most span : ℕ) (ts : List Time) (waiting : ℕ) (t : Time) : Type 0 where
  pub kept : (later : Time) → t ≤ later → length (keep later span ts) + waiting ≤ most
  pub spans : (start : Time) → length (during start span ts) ≤ most

module _ {most span waiting t : ℕ} (ts : List Time) (b : IsBelow most span ts waiting t) where
  pub later-IsBelow : (now : Time) → t ≤ now → IsBelow most span ts waiting now
  later-IsBelow now h = record { kept = λ later l. b.kept later (omega arith); spans = b.spans }

  pub fewer-IsBelow : IsBelow most span ts (waiting - 1) t
  fewer-IsBelow = record { kept = λ later l. omega (arith, b.kept later l); spans = b.spans }

  pub none-IsBelow : IsBelow most span [] waiting t
  unfolding during keep
  none-IsBelow = record {
    kept = λ later l. omega (arith, b.kept later l);
    spans = λ start. omega arith;
  }

  pub added-IsBelow :
      (now : Time) → t ≤ now → 0 < waiting → IsBelow most span (ts ++ now ∷ []) (waiting - 1) now
  unfolding during keep
  added-IsBelow now h w = record {
    kept = λ later l. ground (arith, kept_more span later now ts, b.kept later (omega arith));
    spans = λ start. ground (
      arith,
      during-append start span ts (now ∷ []),
      λ (q : now < start + span). during-keep start span now ts q,
      b.kept now h,
      b.spans start,
    );
  }

pub let_in-IsBelow :
    {limit others span waiting t : ℕ} (ts : List Time) (now : Time)
    → t ≤ now
    → length (keep now span ts) < limit
    → waiting ≤ others
    → IsBelow (limit + others) span ts waiting t
    → IsBelow (limit + others) span ts (waiting + 1) now
let_in-IsBelow {span = span} ts now h q l b = record {
  kept = λ later p. omega (arith, keep_mono now later span ts p);
  spans = b.spans;
}
