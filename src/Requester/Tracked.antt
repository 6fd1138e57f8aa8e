-- ===== src/Requester/Tracked.antt =====
-- backend/internal/rpc/requester.go: where every request draws a fresh id, each one that waits has its
-- waiter.
use posserver.Prelude.{
  ℕ, ◌+◌, ◌≤◌, String, ◌≡◌, sym, ap, ◌∙◌, Bool, true, false, none, some, List, ◌∷◌, arith,
  str_eq_iff, str_eq_refl, contains, lookup, insert, delete, lookup-insert, lookup-delete,
}
use posserver.Broker.{Scope, at, set, unset}
use posserver.Broker.Live.{at-set}
use posserver.Requester.{Waiter, Running, Phase, checked}
use posserver.Requester.Pending.{at-unset, owner, owner-set, owner-unset, owner-set_same}

abbrev pub is_checked : Phase → Bool
is_checked checked = true
is_checked _ = false

-- The waiter that a request registers.
abbrev pub waiter_of : ℕ → Running → Waiter
waiter_of k q = record { scope = q.scope; ch = k }

-- The ids of the running requests are distinct and none of `ids`, and a request past its first step has
-- its waiter.
pub record IsTracked (ids : List String) (made : ℕ) (m : List (ℕ × Running))
    (ws : List (String × Waiter)) : Type 0 where
  pub past : (k : ℕ) → made ≤ k → at k m ≡ none
  pub distinct :
      (j k : ℕ) (id : String) (s t : Scope)
      → owner m j ≡ some (id, s)
      → owner m k ≡ some (id, t)
      → j ≡ k
  pub later : (k : ℕ) (id : String) (s : Scope) → owner m k ≡ some (id, s) → contains ids id ≡ false
  pub waits :
      (k : ℕ) (q : Running)
      → at k m ≡ some q
      → is_checked q.phase ≡ false
      → lookup q.id ws ≡ some (waiter_of k q)

module _ (made : ℕ) (m : List (ℕ × Running)) (ws : List (String × Waiter)) where
  pub drops-IsTracked :
      (id : String) (ids : List String) → IsTracked (id ∷ ids) made m ws → IsTracked ids made m ws
  unfolding contains
  drops-IsTracked id ids v = record {
    past = v.past;
    distinct = v.distinct;
    later = λ k id' s o. ground (arith, v.later k id' s o);
    waits = v.waits;
  }

  pub begins-IsTracked :
      (q : Running) (ids : List String)
      → contains ids q.id ≡ false
      → q.phase ≡ checked
      → IsTracked (q.id ∷ ids) made m ws
      → IsTracked ids (made + 1) (set made q m) ws
  unfolding contains
  begins-IsTracked q ids fresh c v = record {
    past = λ k le. ground (arith, at-set made k q m, v.past k (omega arith));
    distinct = λ j k id s t a b. ground (
      arith,
      owner-set made j q m,
      owner-set made k q m,
      a,
      b,
      str_eq_refl id,
      v.distinct j k id s t,
      v.later j id s,
      v.later k id t,
    );
    later = λ k id s a. ground (arith, owner-set made k q m, a, fresh, v.later k id s);
    waits = λ k p a n. v.waits k p (ground (arith, at-set made k q m, a, n, ap is_checked c)) n;
  }

  pub moves-IsTracked :
      (ids : List String) (k : ℕ) (q : Running)
      → owner m k ≡ some (q.id, q.scope)
      → (is_checked q.phase ≡ false → lookup q.id ws ≡ some (waiter_of k q))
      → IsTracked ids made m ws
      → IsTracked ids made (set k q m) ws
  moves-IsTracked ids k q o w v = record {
    past = λ j le. ground (arith, at-set k j q m, v.past j le, o);
    distinct = λ i j id s t a b.
        v.distinct i j id s t (sym (owner-set_same k i q m o) ∙ a)
          (sym (owner-set_same k j q m o) ∙ b);
    later = λ j id s a. v.later j id s (sym (owner-set_same k j q m o) ∙ a);
    waits = λ j p a n. ground (arith, at-set k j q m, a, n, w, v.waits j p);
  }

  pub registers-IsTracked :
      (ids : List String) (k : ℕ) (q : Running)
      → at k m ≡ some q
      → q.phase ≡ checked
      → IsTracked ids made m ws
      → IsTracked ids made m (insert q.id (waiter_of k q) ws)
  registers-IsTracked ids k q a c v = record {
    past = v.past;
    distinct = v.distinct;
    later = v.later;
    waits = λ j p b n. ground (
      arith,
      lookup-insert q.id p.id (waiter_of k q) ws,
      str_eq_iff q.id p.id,
      v.distinct j k q.id p.scope q.scope,
      a,
      b,
      ap is_checked c,
      n,
      v.waits j p b n,
    );
  }

  pub finish-IsTracked :
      (ids : List String) (k : ℕ) (q : Running)
      → at k m ≡ some q
      → IsTracked ids made m ws
      → IsTracked ids made (unset k m) (delete q.id ws)
  finish-IsTracked ids k q a v = record {
    past = λ j le. ground (arith, at-unset k j m, v.past j le);
    distinct = λ i j id s t b c.
        v.distinct i j id s t (ground (arith, owner-unset k i m, b))
          (ground (arith, owner-unset k j m, c));
    later = λ j id s b. v.later j id s (ground (arith, owner-unset k j m, b));
    waits = λ j p b n. ground (
      arith,
      lookup-delete q.id p.id ws,
      at-unset k j m,
      str_eq_iff q.id p.id,
      v.distinct j k q.id p.scope q.scope,
      a,
      b,
      v.waits j p,
      n,
    );
  }
