-- ===== src/Order/History.antt =====
-- Whatever happens to an order (backend/internal/domain/order: entity.go, floor.go, events.go), its
-- status history is a chain that starts at its reception and ends at its status.
use posserver.Prelude.{
  String, ◌≡◌, refl, sym, ◌∙◌, Bool, true, false, not, ◌&&◌, ◌||◌, Option, none, some, List, [],
  ◌∷◌, ◌++◌, arith, if◌then◌else◌,
}
use posserver.Order.Types.{Time, Uuid, Payment, nil_uuid}
use posserver.Order.Status.{
  Status, StatusEvent, received, validated, scheduled, cancelled, status_eq, floor_rank,
}
use posserver.Order.Aggregate.{
  Order, Ambient, ok, NewOrderInput, new_order, record_event, pull_events, transition, move_to,
  announce, attach_payment,
}
use posserver.Order.Floor.{
  FloorUpdate, NotDeliveredUpdate, apply_floor_update, apply_floor_cancel, apply_forward, time_of,
  report, settle, before, has_rank, move_if_other, bring_back_if, apply_not_delivered, move_forward,
  mirror_fields, return_target, Verdict, stale, applied, moves_forward,
}
use posserver.Order.Edges.{transition-⟶}

-- Each entry starts at the status that the one before it reached; `last` is reached at the end.
abbrev pub Chain : Option Status → List StatusEvent → Status → Type 0
Chain prev [] last = prev ≡ some last
Chain prev (h ∷ hs) last = (h.from ≡ prev) × Chain (some h.to) hs last

-- The first entry is the reception.
abbrev pub Opens : List StatusEvent → Type 0
Opens [] = ⊥
Opens (h ∷ hs) = h.to ≡ received

abbrev pub IsChained : Order → Type 0
IsChained o = Opens o.status_history × Chain none o.status_history o.status

Opens-append : (hs gs : List StatusEvent) → Opens hs → Opens (hs ++ gs)
Opens-append (h ∷ hs) gs p = p
Opens-append [] gs p = absurd p

Chain-snoc :
    (prev : Option Status) (hs : List StatusEvent) (last : Status) (h : StatusEvent)
    → Chain prev hs last
    → h.from ≡ some last
    → Chain prev (hs ++ h ∷ []) h.to
Chain-snoc prev [] last h c e = (e ∙ sym c, refl)
Chain-snoc prev (g ∷ gs) last h (c, cs) e = (c, Chain-snoc (some g.to) gs last h cs e)

-- What one call does to the status and the history: nothing, or one entry to the new status.
pub data Advance (o o' : Order) : Type 0 where
  kept : o'.status ≡ o.status → o'.status_history ≡ o.status_history → Advance o o'
  stepped :
      (h : StatusEvent)
      → h.from ≡ some o.status
      → o'.status ≡ h.to
      → o'.status_history ≡ o.status_history ++ h ∷ []
      → Advance o o'

Advance-IsChained : {o o' : Order} → Advance o o' → IsChained o → IsChained o'
Advance-IsChained {o} {o'} (kept s h) c = rw (s, h) c
Advance-IsChained {o} {o'} (stepped h f s e) c =
    rw (s, e)
      (Opens-append o.status_history _ c.0, Chain-snoc none o.status_history o.status h c.1 f)

move_to-Advance :
    (o : Order) (to : Status) (at : Time) (actor : String) (who : Uuid) (reason : String)
    → Advance o (move_to o to at actor who reason)
unfolding move_to
move_to-Advance o to at actor who reason = stepped _ refl refl refl

-- Later writes to other fields keep an advance.
Advance-trans_same :
    {o o' o'' : Order}
    → Advance o o'
    → o''.status ≡ o'.status
    → o''.status_history ≡ o'.status_history
    → Advance o o''
Advance-trans_same (kept s h) s' h' = kept (s' ∙ s) (h' ∙ h)
Advance-trans_same (stepped h f s e) s' h' = stepped h f (s' ∙ s) (h' ∙ e)

announce-Advance :
    (e : Ambient) (from : Status) (actor reason : String) {o o' : Order}
    → Advance o o'
    → Advance o (announce e from actor reason o')
unfolding announce record_event
announce-Advance e from actor reason a = Advance-trans_same a refl refl

pub transition-Advance :
    (e : Ambient) (o : Order) (to : Status) (actor : String) (who : Uuid) (reason : String)
    {o' : Order}
    → transition e o to actor who reason ≡ ok o'
    → Advance o o'
transition-Advance e o to actor who reason h =
    let (_, status, history, _) = transition-⟶ e o to actor who reason h in
    stepped _ refl status history

stay : (o : Order) → Advance o o
stay o = kept refl refl

-- A branch of a call advances where both of its outcomes do.
if-Advance :
    (b : Bool) (x y : Verdict × Order) {o : Order}
    → Advance o x.1
    → Advance o y.1
    → Advance o (if◌then◌else◌ {A = Verdict × Order} b x y).1
if-Advance true x y p q = p
if-Advance false x y p q = q

apply_floor_cancel-Advance :
    (e : Ambient) (u : FloorUpdate) (o : Order) → Advance o (apply_floor_cancel e u o).1
unfolding apply_floor_cancel
apply_floor_cancel-Advance e u o =
    if-Advance
      (not (status_eq o.status received)
        && not (status_eq o.status validated)
        && not (status_eq o.status scheduled))
      (stale, o) (applied, _) (stay o)
      (announce-Advance e o.status "agent" _
        (move_to-Advance o cancelled (time_of e u.at) "agent" nil_uuid _))

move_forward-Advance : (u : FloorUpdate) (at : Time) (o : Order) → Advance o (move_forward u at o).0
unfolding move_forward
move_forward-Advance u at o =
    elim (moves_forward (floor_rank o.status) (floor_rank u.status))
      as (λ b.
        Advance o
          (if◌then◌else◌ {A = Order × Bool} b
            (
              move_to o u.status at "agent" nil_uuid
                  (if u.auto then "auto-finished at batch close" else "floor"),
              true,
            )
            (o, false)).0) [
              | true ↦ move_to-Advance o u.status at "agent" nil_uuid _
              | false ↦ stay o
            ]

report-Advance :
    (e : Ambient) (from : Status) (changed : Bool) {o o' : Order}
    → Advance o o'
    → Advance o (report e from changed o').1
unfolding report
report-Advance e from true a = announce-Advance e from "agent" "" a
report-Advance e from false a = a

mirror_fields-Advance :
    (u : FloorUpdate) (at : Time) {o o' : Order}
    → Advance o o'
    → Advance o (mirror_fields u at o').0
unfolding mirror_fields
mirror_fields-Advance u at a = Advance-trans_same a refl refl

settle-Advance :
    (e : Ambient) (from : Status) (u : FloorUpdate) (at : Time) {o : Order} (ahead : Order)
    (changed : Bool)
    → Advance o ahead
    → Advance o (settle e from u at ahead changed).1
unfolding settle
settle-Advance e from u at ahead changed a =
    let (mirrored, touched) = mirror_fields u at ahead in
    let fields = report e from (changed || touched) mirrored in
    let late = report e from changed ahead in
    if-Advance (not (has_rank (floor_rank from))) (stale, ahead)
      (if before at ahead.floor_at then late else fields) a
      (if-Advance (before at ahead.floor_at) late fields (report-Advance e from changed a)
        (report-Advance e from _ (mirror_fields-Advance u at a)))

apply_forward-Advance :
    (e : Ambient) (u : FloorUpdate) (o : Order) → Advance o (apply_forward e u o).1
unfolding apply_forward
apply_forward-Advance e u o =
    settle-Advance e o.status u (time_of e u.at) _ _ (move_forward-Advance u (time_of e u.at) o)

apply_floor_update-Advance :
    (e : Ambient) (u : FloorUpdate) (o : Order) → Advance o (apply_floor_update e u o).1
unfolding apply_floor_update
apply_floor_update-Advance e u o =
    if-Advance (status_eq u.status cancelled) (apply_floor_cancel e u o) (apply_forward e u o)
      (apply_floor_cancel-Advance e u o) (apply_forward-Advance e u o)

move_if_other-Advance :
    (o : Order) (to : Status) (at : Time) (reason : String)
    → Advance o (move_if_other o to at reason)
unfolding move_if_other
move_if_other-Advance o to at reason =
    elim (status_eq to o.status)
      as (λ b. Advance o (if b then o else move_to o to at "agent" nil_uuid reason)) [
        | true ↦ stay o
        | false ↦ move_to-Advance o to at "agent" nil_uuid reason
      ]

bring_back_if-Advance :
    (e : Ambient) (at : Time) (o : Order) (r : Option (Status × String))
    → Advance o (bring_back_if e at o r).1
unfolding bring_back_if
bring_back_if-Advance e at o none = stay o
bring_back_if-Advance e at o (some (to, reason)) =
    Advance-trans_same (move_if_other-Advance o to at reason) refl refl

apply_not_delivered-Advance :
    (e : Ambient) (u : NotDeliveredUpdate) (o : Order) → Advance o (apply_not_delivered e u o).1
unfolding apply_not_delivered
apply_not_delivered-Advance e u o =
    let back = bring_back_if e (time_of e u.at) o (return_target u o) in
    if-Advance (before (time_of e u.at) o.floor_at) (stale, o) back (stay o)
      (bring_back_if-Advance e (time_of e u.at) o (return_target u o))

-- Every call that changes an order.
pub data Step (o : Order) : Order → Type 0 where
  transitioned :
      (e : Ambient) (to : Status) (actor : String) (who : Uuid) (reason : String) {o' : Order}
      → transition e o to actor who reason ≡ ok o'
      → Step o o'
  floored : (e : Ambient) (u : FloorUpdate) → Step o (apply_floor_update e u o).1
  returned : (e : Ambient) (u : NotDeliveredUpdate) → Step o (apply_not_delivered e u o).1
  paid : (e : Ambient) (p : Payment) → Step o (attach_payment e p o)
  pulled : Step o (pull_events o).1

-- An order's life: built by `NewOrder`, then any calls.
pub data Life : Order → Type 0 where
  born : (e : Ambient) (i : NewOrderInput) {o : Order} → new_order e i ≡ ok o → Life o
  lived : {o o' : Order} → Life o → Step o o' → Life o'

pub Step-Advance : {o o' : Order} → Step o o' → Advance o o'
unfolding attach_payment pull_events
Step-Advance {o} (transitioned e to actor who reason h) =
    transition-Advance e o to actor who reason h
Step-Advance {o} (floored e u) = apply_floor_update-Advance e u o
Step-Advance {o} (returned e u) = apply_not_delivered-Advance e u o
Step-Advance (paid e p) = kept refl refl
Step-Advance pulled = kept refl refl

new_order-IsChained :
    (e : Ambient) (i : NewOrderInput) {o : Order} → new_order e i ≡ ok o → IsChained o
unfolding new_order
new_order-IsChained e i h = ground arith

-- At every point of an order's life its history is a chain of status changes that starts at its
-- reception and ends at its status.
pub Life-IsChained : {o : Order} → Life o → IsChained o
Life-IsChained (born e i h) = new_order-IsChained e i h
Life-IsChained (lived l s) = Advance-IsChained (Step-Advance s) (Life-IsChained l)
