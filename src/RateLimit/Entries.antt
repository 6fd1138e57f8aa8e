-- ===== src/RateLimit/Entries.antt =====
-- backend/internal/shared/ratelimit/ratelimit.go: what pruning keeps of a key's events.
use posserver.Prelude.{
  ℕ, ◌≤◌, String, ◌≡◌, refl, ap, List, [], ◌∷◌, ◌++◌, arith, if◌then◌else◌, str_eq, str_eq_iff,
  insert, delete, lookup-insert, lookup-delete,
}
use posserver.Order.Types.{Time}
use posserver.RateLimit.{Window, hits_of, keep, prune, is_empty}

pub append_nil : (ts : List Time) → ts ++ [] ≡ ts
append_nil [] = refl
append_nil (t ∷ ts) = ap (λ us. t ∷ us) (append_nil ts)

pub keep-append :
    (now window : ℕ) (ts us : List Time)
    → keep now window (ts ++ us) ≡ keep now window ts ++ keep now window us
unfolding keep
keep-append now window [] us = refl
keep-append now window (t ∷ ts) us = ground (arith, keep-append now window ts us)

-- Keeping twice keeps what the later time does.
pub keep-keep :
    (now later window : ℕ) (ts : List Time)
    → now ≤ later
    → keep later window (keep now window ts) ≡ keep later window ts
unfolding keep
keep-keep now later window [] h = refl
keep-keep now later window (t ∷ ts) h = ground (arith, keep-keep now later window ts h)

-- What a key's entry holds after it is deleted or written.
pub stored :
    (key k : String) (ts : List Time) (w : Window)
    → hits_of key (record w { hits = if is_empty ts then delete k w.hits else insert k ts w.hits })
      ≡ (if str_eq k key then ts else hits_of key w)
unfolding hits_of
stored key k [] w = ground (arith, lookup-delete k key w.hits)
stored key k (t ∷ ts) w = ground (arith, lookup-insert k key (t ∷ ts) w.hits)

pub hits_of-prune :
    (key k : String) (now : Time) (w : Window)
    → hits_of key (prune k now w).1
      ≡ (if str_eq k key then keep now w.window (hits_of k w) else hits_of key w)
unfolding prune
hits_of-prune key k now w = stored key k (keep now w.window (hits_of k w)) w

pub keep-prune :
    (key k : String) (now later : Time) (w : Window)
    → now ≤ later
    → keep later w.window (hits_of key (prune k now w).1) ≡ keep later w.window (hits_of key w)
keep-prune key k now later w h = ground (
  arith,
  str_eq_iff k key,
  hits_of-prune key k now w,
  keep-keep now later w.window (hits_of key w) h,
)
