-- ===== src/Order/Closed.antt =====
-- backend/internal/domain/order: a rejected or cancelled order never moves again.
use posserver.Prelude.{String, ◌≡◌, refl, ◌∙◌, ◌≢◌, ◌⊎◌, false, arith}
use posserver.Order.Types.{Uuid}
use posserver.Order.Status.{Status, rejected, cancelled, status_eq, floor_rank, is_terminal}
use posserver.Order.Aggregate.{Order, Ambient, ok, transition, attach_payment, pull_events}
use posserver.Order.Floor.{
  FloorUpdate, NotDeliveredUpdate, apply_floor_update, apply_floor_cancel, moves_forward, stale,
  apply_not_delivered,
}
use posserver.Order.Forward.{later, apply_forward-later}
use posserver.Order.Returned.{accepts, apply_not_delivered_cases}
use posserver.Order.History.{Step, transitioned, floored, returned, paid, pulled}

abbrev pub IsClosed : Status → Type 0
IsClosed s = (s ≡ rejected) ⊎ (s ≡ cancelled)

-- Any calls, in any order.
pub data Reach (o : Order) : Order → Type 0 where
  here : Reach o o
  next : {p q : Order} → Reach o p → Step p q → Reach o q

later-IsClosed : (s t : Status) → IsClosed s → later s t ≡ s
unfolding moves_forward floor_rank
later-IsClosed s t h = ground arith

cancel-IsClosed :
    (e : Ambient) (u : FloorUpdate) (o : Order)
    → IsClosed o.status
    → apply_floor_cancel e u o ≡ (stale, o)
unfolding apply_floor_cancel status_eq
cancel-IsClosed e u o h = ground arith

floor-IsClosed :
    (e : Ambient) (u : FloorUpdate) (o : Order)
    → IsClosed o.status
    → (apply_floor_update e u o).1.status ≡ o.status
unfolding apply_floor_update
floor-IsClosed e u o h =
    ground
      (arith, cancel-IsClosed e u o, apply_forward-later e u o, later-IsClosed o.status u.status)

accepts-IsClosed :
    (e : Ambient) (u : NotDeliveredUpdate) (o : Order) → IsClosed o.status → accepts e u o ≡ false
unfolding status_eq
accepts-IsClosed e u o h = ground arith

returned-IsClosed :
    (e : Ambient) (u : NotDeliveredUpdate) (o : Order)
    → IsClosed o.status
    → (apply_not_delivered e u o).1.status ≡ o.status
returned-IsClosed e u o h = ground (arith, apply_not_delivered_cases e u o, accepts-IsClosed e u o)

transition-IsClosed :
    (e : Ambient) (o : Order) (to : Status) (actor : String) (who : Uuid) (reason : String)
    {o' : Order}
    → IsClosed o.status
    → transition e o to actor who reason ≢ ok o'
unfolding transition is_terminal status_eq
transition-IsClosed e o to actor who reason h = ground arith

Step-IsClosed : {o o' : Order} → Step o o' → IsClosed o.status → o'.status ≡ o.status
unfolding attach_payment pull_events
Step-IsClosed {o} (transitioned e to actor who reason s) h =
    absurd (transition-IsClosed e o to actor who reason h s)
Step-IsClosed {o} (floored e u) h = floor-IsClosed e u o h
Step-IsClosed {o} (returned e u) h = returned-IsClosed e u o h
Step-IsClosed (paid e p) h = refl
Step-IsClosed pulled h = refl

-- Whatever calls follow, in any order, a rejected or cancelled order keeps that status.
pub Reach-IsClosed : {o o' : Order} → IsClosed o.status → Reach o o' → o'.status ≡ o.status
Reach-IsClosed h here = refl
Reach-IsClosed {o} h (next {p} r s) = let ih = Reach-IsClosed h r in Step-IsClosed s (rw ih h) ∙ ih
