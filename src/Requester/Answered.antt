-- ===== src/Requester/Answered.antt =====
-- backend/internal/rpc/requester.go: what the requests return and leave behind, after any steps.
use posserver.Prelude.{
  IsIn, IsIn-All, All, String, ◌≡◌, refl, ap, inl, inr, none, List, [], ◌∷◌, arith, Option-cases,
  str_eq_refl, lookup,
}
use posserver.Broker.{Broker, Scope, at}
use posserver.Requester.{
  Envelope, Marshal, Waiter, Returned, Step, begins, registers, sends, wakes, delivers, streams,
  run, new_requester,
}
use posserver.Requester.Pending.{IsAnswer, owner, IsSound}
use posserver.Requester.Kept.{Delivers, run-IsSound}

new-IsSound : (P : Scope → Envelope → Type 0) (b : Broker) → IsSound P (new_requester b)
unfolding at lookup
new-IsSound P b = record {
  past = λ k le. (refl, refl);
  owned = λ id w l. ground (arith, l);
  heard = λ k env id scope a o. ground (arith, a);
  answers = tt;
}

-- The envelope was delivered for the scope.
abbrev pub WasDelivered : {V : Type 0} → List (Step V) → Scope → Envelope → Type 0
WasDelivered ss scope env = IsIn (delivers scope env) ss

-- A request that returned a reply returned one that was delivered to it.
abbrev pub IsAnswered : {V : Type 0} → List (Step V) → Returned → Type 0
IsAnswered ss x = IsAnswer (WasDelivered ss) x.id x.scope x.result

module _ {V : Type 0} (j : Marshal V) (b : Broker) (ss : List (Step V)) where
  Delivers-all : (s : Step V) → IsIn s ss → Delivers (WasDelivered ss) j s
  Delivers-all (begins scope kind payload id) m = tt
  Delivers-all (registers k) m = tt
  Delivers-all (sends k) m = tt
  Delivers-all (wakes k w) m = tt
  Delivers-all (delivers scope env) m = m
  Delivers-all (streams c) m = tt

  ran-IsSound : IsSound (WasDelivered ss) (run j (new_requester b) ss)
  ran-IsSound =
      run-IsSound (WasDelivered ss) j ss (new_requester b) (IsIn-All _ ss Delivers-all)
        (new-IsSound (WasDelivered ss) b)

-- However the steps of requests, replies and streams follow each other, a `Request` that returns a reply
-- returns an envelope with its own id that was delivered for its own store.
pub run-IsAnswered :
    {V : Type 0} (j : Marshal V) (b : Broker) (ss : List (Step V))
    → All (IsAnswered ss) (run j (new_requester b) ss).returned
run-IsAnswered j b ss = (ran-IsSound j b ss).answers

no_keys : (ws : List (String × Waiter)) → ((id : String) → lookup id ws ≡ none) → ws ≡ []
unfolding lookup
no_keys [] h = refl
no_keys ((id, w) ∷ ws) h = ground (arith, h id, str_eq_refl id)

-- Once no `Request` runs any more, whatever steps led there, no waiter is left behind.
pub run-no_waiters :
    {V : Type 0} (j : Marshal V) (b : Broker) (ss : List (Step V))
    → (run j (new_requester b) ss).running ≡ []
    → (run j (new_requester b) ss).waiters ≡ []
unfolding at
run-no_waiters j b ss h = no_keys _ (λ id.
    elim (Option-cases (lookup id (run j (new_requester b) ss).waiters)) [
      | inl n ↦ n
      | inr (w, l) ↦
          absurd (ground (arith, ap (λ m. owner m w.ch) h, (ran-IsSound j b ss).owned id w l))
    ])
