-- ===== src/RateLimit/Log.antt =====
-- backend/internal/shared/ratelimit/ratelimit.go: the window decides as if it kept every event.
use posserver.Prelude.{
  ℕ, ◌≤◌, max, String, ◌≡◌, refl, sym, ap, ◌∙◌, Bool, true, false, List, [], ◌∷◌, ◌++◌, arith, ltb,
  if◌then◌else◌, length, str_eq, str_eq_iff, str_eq_refl, lookup, insert, lookup-insert,
}
use posserver.Order.Types.{Time}
use posserver.RateLimit.{
  max_keys, retry_after_n, allow_n, add, Window, new, hits_of, keep, prune, prune_keys, reset,
}
use posserver.RateLimit.Entries.{append_nil, keep-append, keep-keep, stored, keep-prune}

-- Every event, with its key and time, in order.
abbrev pub Log : Type 0
Log = List (String × Time)

-- The times of a key.
unfoldable pub logged : String → Log → List Time
logged key [] = []
logged key ((k, t) ∷ log) = let rest = logged key log in if str_eq k key then t ∷ rest else rest

-- The log without a key.
unfoldable pub forget : String → Log → Log
forget key [] = []
forget key ((k, t) ∷ log) =
    let rest = forget key log in if str_eq k key then rest else (k, t) ∷ rest

pub logged-append :
    (key k : String) (log : Log) (t : Time)
    → logged key (log ++ (k, t) ∷ []) ≡ logged key log ++ (if str_eq k key then t ∷ [] else [])
unfolding logged
logged-append key k [] t = ground arith
logged-append key k ((j, s) ∷ log) t = ground (arith, logged-append key k log t)

pub logged-forget :
    (key k : String) (log : Log)
    → logged key (forget k log) ≡ (if str_eq k key then [] else logged key log)
unfolding logged forget
logged-forget key k [] = ground arith
logged-forget key k ((j, s) ∷ log) =
    ground (arith, logged-forget key k log, str_eq_iff j k, str_eq_iff j key, str_eq_iff k key)

-- From `now` on, the window keeps of each key what the log would.
pub record Refines (w : Window) (log : Log) (now : Time) (span : ℕ) : Type 0 where
  pub span_kept : w.window ≡ span
  pub same :
      (key : String) (later : Time)
      → now ≤ later
      → keep later span (hits_of key w) ≡ keep later span (logged key log)

Refines-mono :
    (w : Window) (log : Log) (now later : Time) (span : ℕ)
    → now ≤ later
    → Refines w log now span
    → Refines w log later span
Refines-mono w log now later span h r = record {
  span_kept = r.span_kept;
  same = λ key t p. r.same key t (omega arith);
}

prune-Refines :
    (k : String) (w : Window) (log : Log) (now : Time) (span : ℕ)
    → Refines w log now span
    → Refines (prune k now w).1 log now span
unfolding prune
prune-Refines k w log now span r = record {
  span_kept = r.span_kept;
  same = λ key later p.
      ap (λ n. keep later n (hits_of key (prune k now w).1)) (sym r.span_kept)
      ∙ keep-prune key k now later w p
      ∙ ap (λ n. keep later n (hits_of key w)) r.span_kept
      ∙ r.same key later p;
}

prune_keys-Refines :
    (m : List (String × List Time)) (w : Window) (log : Log) (now : Time) (span : ℕ)
    → Refines w log now span
    → Refines (prune_keys m now w) log now span
unfolding prune_keys
prune_keys-Refines [] w log now span r = r
prune_keys-Refines ((k, ts) ∷ m) w log now span r =
    prune_keys-Refines m (prune k now w).1 log now span (prune-Refines k w log now span r)

new-Refines : (max window : ℕ) → Refines (new max window) [] 0 window
unfolding new hits_of lookup logged
new-Refines max window = record { span_kept = refl; same = λ key later p. refl }

keep_nil : (later span : ℕ) → keep later span [] ≡ []
unfolding keep
keep_nil later span = refl

reset-Refines :
    (k : String) (w : Window) (log : Log) (now : Time) (span : ℕ)
    → Refines w log now span
    → Refines (reset k w) (forget k log) now span
unfolding reset
reset-Refines k w log now span r = record {
  span_kept = r.span_kept;
  same = λ key later p.
      ground (
        arith,
        stored key k [] w,
        logged-forget key k log,
        r.same key later p,
        keep_nil later span,
      );
}

pub hits_of-insert :
    (key k : String) (ts : List Time) (w : Window)
    → hits_of key (record w { hits = insert k ts w.hits })
      ≡ (if str_eq k key then ts else hits_of key w)
unfolding hits_of
hits_of-insert key k ts w = ground (arith, lookup-insert k key ts w.hits)

module _ (k : String) (w : Window) (log : Log) (now : Time) (span : ℕ)
    (r : Refines w log now span) where
  abbrev with_event : Window
  with_event = record (prune k now w).1 {
    hits = insert k ((prune k now w).0 ++ now ∷ []) (prune k now w).1.hits;
  }

  pruned_first :
      (later : Time)
      → now ≤ later
      → keep later span (prune k now w).0 ≡ keep later span (logged k log)
  unfolding prune
  pruned_first later p =
      ground (arith, r.span_kept, keep-keep now later span (hits_of k w) p, r.same k later p)

  added_own :
      (later : Time)
      → now ≤ later
      → keep later span ((prune k now w).0 ++ now ∷ [])
        ≡ keep later span (logged k (log ++ (k, now) ∷ []))
  added_own later p = ground (
    arith,
    keep-append later span (prune k now w).0 (now ∷ []),
    pruned_first later p,
    keep-append later span (logged k log) (now ∷ []),
    logged-append k k log now,
    str_eq_refl k,
  )

  added_other :
      (key : String) (later : Time)
      → now ≤ later
      → str_eq k key ≡ false
      → keep later span (hits_of key (prune k now w).1)
        ≡ keep later span (logged key (log ++ (k, now) ∷ []))
  added_other key later p n = ground (
    arith,
    logged-append key k log now,
    append_nil (logged key log),
    (prune-Refines k w log now span r).same key later p,
  )

  pub recorded : Refines with_event (log ++ (k, now) ∷ []) now span
  recorded = record {
    span_kept = (prune-Refines k w log now span r).span_kept;
    same = λ key later p. ground (
      arith,
      hits_of-insert key k ((prune k now w).0 ++ now ∷ []) (prune k now w).1,
      str_eq_iff k key,
      added_own later p,
      added_other key later p,
    );
  }

if-Refines :
    (b : Bool) (x y : Window) (log : Log) (now : Time) (span : ℕ)
    → Refines x log now span
    → Refines y log now span
    → Refines (if b then x else y) log now span
if-Refines true x y log now span p q = p
if-Refines false x y log now span p q = q

add-Refines :
    (k : String) (w : Window) (log : Log) (now : Time) (span : ℕ)
    → Refines w log now span
    → Refines (add k now w) (log ++ (k, now) ∷ []) now span
unfolding add
add-Refines k w log now span r =
    recorded k (if ltb max_keys (length w.hits) then prune_keys w.hits now w else w) log now span (
      if-Refines _ (prune_keys w.hits now w) w log now span
        (prune_keys-Refines w.hits w log now span r) r)

-- The calls on a window of `max` and `span`, the clock never going back, with the log of what was
-- added and not reset.
pub data Run (max span : ℕ) : Window → Log → Time → Type 0 where
  opened : Run max span (new max span) [] 0
  asked :
      {w : Window} {log : Log} {t : Time} (key : String) (limit : ℕ) (now : Time)
      → t ≤ now
      → Run max span w log t
      → Run max span (allow_n key limit now w).1 log now
  waited :
      {w : Window} {log : Log} {t : Time} (key : String) (limit : ℕ) (now : Time)
      → t ≤ now
      → Run max span w log t
      → Run max span (retry_after_n key limit now w).1 log now
  added :
      {w : Window} {log : Log} {t : Time} (key : String) (now : Time)
      → t ≤ now
      → Run max span w log t
      → Run max span (add key now w) (log ++ (key, now) ∷ []) now
  forgot :
      {w : Window} {log : Log} {t : Time} (key : String)
      → Run max span w log t
      → Run max span (reset key w) (forget key log) t

Run-Refines :
    {max span : ℕ} {w : Window} {log : Log} {t : Time} → Run max span w log t → Refines w log t span
unfolding allow_n retry_after_n
Run-Refines {max} {span} opened = new-Refines max span
Run-Refines {span} (asked {w} {log} {t} key limit now h r) =
    prune-Refines key w log now span (Refines-mono w log t now span h (Run-Refines r))
Run-Refines {span} (waited {w} {log} {t} key limit now h r) =
    prune-Refines key w log now span (Refines-mono w log t now span h (Run-Refines r))
Run-Refines {span} (added {w} {log} {t} key now h r) =
    add-Refines key w log now span (Refines-mono w log t now span h (Run-Refines r))
Run-Refines {span} (forgot {w} {log} {t} key r) = reset-Refines key w log t span (Run-Refines r)

-- After any calls `AllowN` answers as if every event since the last reset of its key were kept: it
-- allows one more where fewer than `limit` of them are younger than the span.
pub allow_n-log :
    {max span : ℕ} {w : Window} {log : Log} {t : Time} (key : String) (limit : ℕ) (now : Time)
    → t ≤ now
    → Run max span w log t
    → (allow_n key limit now w).0 ≡ ltb (length (keep now span (logged key log))) limit
unfolding allow_n prune
allow_n-log {span = span} {w} {log} key limit now h r =
    let f = Run-Refines r in
    ap (λ ts. ltb (length ts) limit)
      (ap (λ n. keep now n (hits_of key w)) f.span_kept ∙ f.same key now h)
