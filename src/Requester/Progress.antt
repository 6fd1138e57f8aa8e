-- ===== src/Requester/Progress.antt =====
-- backend/internal/rpc/requester.go: a reply to a request that waits reaches it, where every request drew
-- a fresh id.
use posserver.Prelude.{
  IsDistinct, ℕ, String, ◌≡◌, refl, sym, ap, ◌∙◌, true, Option, none, some, List, [], ◌∷◌, ◌++◌,
  arith, ◌==◌, str_eq_refl, lookup,
}
use mathlib.Core.Path.{subst}
use posserver.Broker.{Broker, Scope, scope_eq, at, set, unset, subscribers_for}
use posserver.Broker.Live.{at-set}
use posserver.Requester.{
  Envelope, Marshal, Running, Requester, Step, replied, waiting, begins, registers, sends, wakes,
  delivers, streams, for_reply, begin, command, wake, wake_as, take_reply, finish, offer, deliver,
  deliver_to, step, run, new_requester,
}
use posserver.Requester.Pending.{at-unset}
use posserver.Requester.Tracked.{is_checked, waiter_of, drops-IsTracked}
use posserver.Requester.Tracks.{
  Tracks, if-Tracks, begin_with-Tracks, register-Tracks, send-Tracks, wake-Tracks,
  deliver_to-Tracks,
}

abbrev add_id : {V : Type 0} → Step V → List String → List String
add_id (begins scope kind payload id) ids = id ∷ ids
add_id _ ids = ids

-- The ids that the requests draw.
abbrev pub begun : {V : Type 0} → List (Step V) → List String
begun [] = []
begun (s ∷ ss) = add_id s (begun ss)

later-IsDistinct :
    {V : Type 0} (s : Step V) (ids : List String) → IsDistinct (add_id s ids) → IsDistinct ids
later-IsDistinct (begins scope kind payload id) ids d = d.1
later-IsDistinct (registers k) ids d = d
later-IsDistinct (sends k) ids d = d
later-IsDistinct (wakes k w) ids d = d
later-IsDistinct (delivers scope env) ids d = d
later-IsDistinct (streams c) ids d = d

module _ {V : Type 0} (j : Marshal V) where
  step-Tracks :
      (s : Step V) (ids : List String) (r : Requester)
      → IsDistinct (add_id s ids)
      → Tracks (add_id s ids) r
      → Tracks ids (step j r s)
  unfolding step begin deliver
  step-Tracks (begins scope kind payload id) ids r d v =
      if-Tracks ids (subscribers_for scope r.broker == 0) _ _
        (drops-IsTracked r.made r.running r.waiters id ids v)
        (begin_with-Tracks ids id scope (command j kind payload id) r d.0 v)
  step-Tracks (registers k) ids r d v = register-Tracks ids k (at k r.running) r refl v
  step-Tracks (sends k) ids r d v = send-Tracks ids k (at k r.running) r refl v
  step-Tracks (wakes k w) ids r d v = wake-Tracks ids k (at k r.running) w r refl v
  step-Tracks (delivers scope env) ids r d v =
      deliver_to-Tracks ids scope env (lookup env.id r.waiters) r v
  step-Tracks (streams c) ids r d v = v

  run-Tracks :
      (ss : List (Step V)) (r : Requester)
      → IsDistinct (begun ss)
      → Tracks (begun ss) r
      → Tracks [] (run j r ss)
  unfolding run
  run-Tracks [] r d v = v
  run-Tracks (s ∷ ss) r d v =
      run-Tracks ss (step j r s) (later-IsDistinct s (begun ss) d) (step-Tracks s (begun ss) r d v)

new-Tracks : (ids : List String) (b : Broker) → Tracks ids (new_requester b)
unfolding at
new-Tracks ids b = record {
  past = λ k le. refl;
  distinct = λ j k id s t a b'. ground (arith, a);
  later = λ k id s a. ground (arith, a);
  waits = λ k q a n. ground (arith, a);
}

abbrev pub first_reply : Option Envelope → Envelope → Envelope
first_reply none env = env
first_reply (some first) env = first

scope_eq_refl : (s : Scope) → scope_eq s s ≡ true
scope_eq_refl s = ground (arith, str_eq_refl s.tenant_id, str_eq_refl s.location_id)

module _ {V : Type 0} (j : Marshal V) (k : ℕ) (q : Running) (env : Envelope) where
  delivered :
      (r : Requester)
      → lookup env.id r.waiters ≡ some (waiter_of k q)
      → deliver q.scope env r ≡ (offer k env (at k r.replies) r, true)
  unfolding deliver deliver_to
  delivered r l = rw (l, scope_eq_refl q.scope) refl

  woken :
      (e : Envelope) (r : Requester)
      → at k r.running ≡ some q
      → q.phase ≡ waiting
      → at k r.replies ≡ some e
      → wake k (at k r.running) for_reply r
        ≡ finish k q (replied e) (record r { replies = unset k r.replies })
  unfolding wake
  woken e r a p h =
      ap (λ x. wake k x for_reply r) a
      ∙ (ap (λ x. wake_as k q x for_reply r) p ∙ ap (λ x. take_reply k q x r) h)

  -- The request returns this reply.
  abbrev pub Returns : Envelope → Requester → Requester → Type 0
  Returns e r r' =
      (at k r'.running ≡ none)
      × (r'.returned ≡ r.returned ++ record { id = q.id; scope = q.scope; result = replied e } ∷ [])

  returns :
      (e : Envelope) (r : Requester)
      → at k r.running ≡ some q
      → q.phase ≡ waiting
      → at k r.replies ≡ some e
      → Returns e r (wake k (at k r.running) for_reply r)
  unfolding finish
  returns e r a p h =
      subst (Returns e r) (sym (woken e r a p h)) (at-unset k k r.running ∙ ground arith, refl)

  offered :
      (o : Option Envelope) (r : Requester)
      → at k r.running ≡ some q
      → q.phase ≡ waiting
      → at k r.replies ≡ o
      → Returns
          (first_reply o env)
          r
          (wake k (at k (offer k env o r).running) for_reply (offer k env o r))
  offered none r a p h =
      returns env (record r { replies = set k env r.replies }) a p
        (at-set k k env r.replies ∙ ground arith)
  offered (some first) r a p h = returns first r a p h

  abbrev pub Receives : Requester → Requester → Type 0
  Receives r r' = Returns (first_reply (at k r.replies) env) r r'

  receives :
      (r : Requester)
      → at k r.running ≡ some q
      → q.phase ≡ waiting
      → lookup env.id r.waiters ≡ some (waiter_of k q)
      → ((deliver q.scope env r).1 ≡ true)
        × Receives r (step j (step j r (delivers q.scope env)) (wakes k for_reply))
  unfolding step
  receives r a p l =
      subst (λ x. (x.1 ≡ true) × Receives r (wake k (at k x.0.running) for_reply x.0))
        (sym (delivered r l)) (refl, offered (at k r.replies) r a p refl)

-- Where the requests draw distinct ids, a delivery for the id and the store of a request that waits is
-- accepted, and the request then returns: with this reply, or with one that was there before it.
pub deliver_lem :
    {V : Type 0} (j : Marshal V) (b : Broker) (ss : List (Step V)) (k : ℕ) (q : Running)
    (env : Envelope)
    → IsDistinct (begun ss)
    → at k (run j (new_requester b) ss).running ≡ some q
    → q.phase ≡ waiting
    → env.id ≡ q.id
    → let r = run j (new_requester b) ss in
      ((deliver q.scope env r).1 ≡ true)
      × Receives j k q env r (step j (step j r (delivers q.scope env)) (wakes k for_reply))
deliver_lem j b ss k q env d a p e =
    let r = run j (new_requester b) ss in
    let v = run-Tracks j ss (new_requester b) d (new-Tracks (begun ss) b) in
    receives j k q env r a p (ap (λ i. lookup i r.waiters) e ∙ v.waits k q a (ap is_checked p))
