-- ===== src/RateLimit/Sorted.antt =====
-- backend/internal/shared/ratelimit/ratelimit.go: every key's hits are in order.
use posserver.Prelude.{
  ℕ, ◌+◌, ◌≤◌, max, String, inl, inr, Bool, true, false, List, [], ◌∷◌, ◌++◌, arith, ltb,
  if◌then◌else◌, Bool-cases, length, str_eq, lookup, insert,
}
use posserver.Order.Types.{Time}
use posserver.RateLimit.{
  Window, new, keep, hits_of, prune, prune_keys, allow_n, retry_after_n, add, reset, max_keys,
}
use posserver.RateLimit.Entries.{stored, hits_of-prune}
use posserver.RateLimit.Log.{Run, opened, asked, waited, added, forgot, hits_of-insert}
use posserver.RateLimit.Retry.{AtLeast, IsSorted, IsSorted-keep}

abbrev AtMost : Time → List Time → Type 0
AtMost t [] = Unit
AtMost t (u ∷ us) = (u ≤ t) × AtMost t us

AtMost-keep : (now window t : ℕ) (ts : List Time) → AtMost t ts → AtMost t (keep now window ts)
unfolding keep
AtMost-keep now window t [] p = p
AtMost-keep now window t (u ∷ us) (p, ps) = elim (Bool-cases (ltb now (u + window))) [
  | inl e ↦ rw e (p, AtMost-keep now window t us ps)
  | inr n ↦ rw n (AtMost-keep now window t us ps)
]

AtMost-mono : (t u : Time) (ts : List Time) → t ≤ u → AtMost t ts → AtMost u ts
AtMost-mono t u [] h p = tt
AtMost-mono t u (v ∷ vs) h (p, ps) = (omega arith, AtMost-mono t u vs h ps)

-- In order, and none after `t`.
record Ordered (t : Time) (ts : List Time) : Type 0 where
  sorted : IsSorted ts
  past : AtMost t ts

Ordered-mono : (t u : Time) (ts : List Time) → t ≤ u → Ordered t ts → Ordered u ts
Ordered-mono t u ts h o = record { sorted = o.sorted; past = AtMost-mono t u ts h o.past }

nothing : (t : Time) → Ordered t []
nothing t = record { sorted = tt; past = tt }

keep-Ordered : (now window t : ℕ) (ts : List Time) → Ordered t ts → Ordered t (keep now window ts)
keep-Ordered now window t ts o = record {
  sorted = IsSorted-keep now window ts o.sorted;
  past = AtMost-keep now window t ts o.past;
}

AtLeast-snoc : (t now : Time) (us : List Time) → t ≤ now → AtLeast t us → AtLeast t (us ++ now ∷ [])
AtLeast-snoc t now [] h p = (h, tt)
AtLeast-snoc t now (u ∷ us) h (p, ps) = (p, AtLeast-snoc t now us h ps)

Ordered-snoc : (now : Time) (ts : List Time) → Ordered now ts → Ordered now (ts ++ now ∷ [])
Ordered-snoc now [] o = record { sorted = (tt, tt); past = (omega arith, tt) }
Ordered-snoc now (t ∷ ts) o =
    let rest = Ordered-snoc now ts (record { sorted = o.sorted.1; past = o.past.1 }) in
    record {
      sorted = (AtLeast-snoc t now ts o.past.0 o.sorted.0, rest.sorted);
      past = (o.past.0, rest.past);
    }

if-Ordered :
    (t : Time) (b : Bool) (x y : List Time)
    → Ordered t x
    → Ordered t y
    → Ordered t (if b then x else y)
if-Ordered t true x y p q = p
if-Ordered t false x y p q = q

-- Every key's.
abbrev AreOrdered : Time → Window → Type 0
AreOrdered t w = (key : String) → Ordered t (hits_of key w)

prune-AreOrdered :
    (k : String) (now t : Time) (w : Window) → AreOrdered t w → AreOrdered t (prune k now w).1
prune-AreOrdered k now t w o key =
    rw (hits_of-prune key k now w)
      (if-Ordered t (str_eq k key) _ _ (keep-Ordered now w.window t _ (o k)) (o key))

prune_keys-AreOrdered :
    (m : List (String × List Time)) (now t : Time) (w : Window)
    → AreOrdered t w
    → AreOrdered t (prune_keys m now w)
unfolding prune_keys
prune_keys-AreOrdered [] now t w o = o
prune_keys-AreOrdered ((k, ts) ∷ m) now t w o =
    prune_keys-AreOrdered m now t (prune k now w).1 (prune-AreOrdered k now t w o)

first-Ordered :
    (k : String) (now : Time) (w : Window) → AreOrdered now w → Ordered now (prune k now w).0
unfolding prune
first-Ordered k now w o = keep-Ordered now w.window now (hits_of k w) (o k)

insert-AreOrdered :
    (k : String) (now : Time) (w : Window)
    → AreOrdered now w
    → AreOrdered now (record (prune k now w).1 {
      hits = insert k ((prune k now w).0 ++ now ∷ []) (prune k now w).1.hits;
    })
insert-AreOrdered k now w o key =
    rw (hits_of-insert key k ((prune k now w).0 ++ now ∷ []) (prune k now w).1) (
      if-Ordered now (str_eq k key) _ _ (Ordered-snoc now _ (first-Ordered k now w o))
        (prune-AreOrdered k now now w o key))

add-AreOrdered :
    (k : String) (now : Time) (w : Window) → AreOrdered now w → AreOrdered now (add k now w)
unfolding add
add-AreOrdered k now w o = elim (Bool-cases (ltb max_keys (length w.hits))) [
  | inl e ↦
      rw e (
        insert-AreOrdered k now (prune_keys w.hits now w)
          (prune_keys-AreOrdered w.hits now now w o))
  | inr n ↦ rw n (insert-AreOrdered k now w o)
]

reset-AreOrdered : (k : String) (t : Time) (w : Window) → AreOrdered t w → AreOrdered t (reset k w)
unfolding reset
reset-AreOrdered k t w o key =
    rw (stored key k [] w) (if-Ordered t (str_eq k key) [] (hits_of key w) (nothing t) (o key))

new-AreOrdered : (max window : ℕ) → AreOrdered 0 (new max window)
unfolding new hits_of lookup
new-AreOrdered max window key = nothing 0

later-AreOrdered : (t u : Time) (w : Window) → t ≤ u → AreOrdered t w → AreOrdered u w
later-AreOrdered t u w h o key = Ordered-mono t u (hits_of key w) h (o key)

Run-AreOrdered :
    {max span : ℕ} {w : Window} {log : List (String × Time)} {t : Time}
    → Run max span w log t
    → AreOrdered t w
unfolding allow_n retry_after_n
Run-AreOrdered {max} {span} opened = new-AreOrdered max span
Run-AreOrdered (asked {w} {t = t} key limit now h r) =
    prune-AreOrdered key now now w (later-AreOrdered t now w h (Run-AreOrdered r))
Run-AreOrdered (waited {w} {t = t} key limit now h r) =
    prune-AreOrdered key now now w (later-AreOrdered t now w h (Run-AreOrdered r))
Run-AreOrdered (added {w} {t = t} key now h r) =
    add-AreOrdered key now w (later-AreOrdered t now w h (Run-AreOrdered r))
Run-AreOrdered (forgot {w} {t = t} key r) = reset-AreOrdered key t w (Run-AreOrdered r)

-- After any calls the hits of every key are in order.
pub Run-IsSorted :
    {max span : ℕ} {w : Window} {log : List (String × Time)} {t : Time} (key : String)
    → Run max span w log t
    → IsSorted (hits_of key w)
Run-IsSorted key r = (Run-AreOrdered r key).sorted
