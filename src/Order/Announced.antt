-- ===== src/Order/Announced.antt =====
-- backend/internal/domain/order: every change is told to the outbox, once and as it is.
use posserver.Prelude.{
  String, ◌≡◌, refl, ◌∙◌, inl, inr, Bool, true, false, not, ◌&&◌, ◌||◌, Option, none, some, [], ◌∷◌,
  ◌++◌, arith, if◌then◌else◌, Bool-cases,
}
use posserver.Order.Types.{Time, nil_uuid}
use posserver.Order.Status.{
  Status, cancelled, status_text, status_eq, received, validated, scheduled, floor_rank,
}
use posserver.Order.Aggregate.{
  Order, Ambient, DomainEvent, order_status_changed, StatusChangedPayload, snapshot, move_to,
  announce, record_event, event_of, change_payload,
}
use posserver.Order.Floor.{
  FloorUpdate, NotDeliveredUpdate, Verdict, stale, applied, time_of, before, return_target,
  has_rank, moves_forward, move_if_other, bring_back_if, apply_not_delivered, report, settle,
  apply_forward, move_forward, mirror_fields, apply_floor_cancel, apply_floor_update,
}

-- One event is added: a status change from `o`'s status to that of `o'`, with `o'`'s snapshot.
pub record Announces (o o' : Order) : Type 0 where
  pub event : DomainEvent
  pub change : StatusChangedPayload
  pub added : o'.pending_events ≡ o.pending_events ++ event ∷ []
  pub payload : event.payload ≡ order_status_changed change
  pub from : change.from ≡ status_text o.status
  pub to : change.to ≡ status_text o'.status
  pub told : change.snapshot ≡ snapshot o'

-- Nothing is added, and the status stands.
pub record IsQuiet (o o' : Order) : Type 0 where
  pub pending : o'.pending_events ≡ o.pending_events
  pub status : o'.status ≡ o.status
  pub history : o'.status_history ≡ o.status_history

-- An applied call announces its change, and a stale one is quiet.
pub data Tells (o : Order) : Verdict × Order → Type 0 where
  loud : {o' : Order} → Announces o o' → Tells o (applied, o')
  quiet : {o' : Order} → IsQuiet o o' → Tells o (stale, o')

announce-Announces :
    (e : Ambient) (actor reason : String) (o ahead : Order)
    → ahead.pending_events ≡ o.pending_events
    → Announces o (announce e o.status actor reason ahead)
unfolding announce record_event snapshot
announce-Announces e actor reason o ahead p = record {
  event =
      event_of e
        (order_status_changed
          (change_payload o.status actor reason (record ahead { updated_at = e.now })))
        ahead;
  change = change_payload o.status actor reason (record ahead { updated_at = e.now });
  added = rw p;
  payload = refl;
  from = refl;
  to = refl;
  told = refl;
}

still : (o : Order) → IsQuiet o o
still o = record { pending = refl; status = refl; history = refl }

if-Tells :
    (b : Bool) (x y : Verdict × Order) {o : Order}
    → Tells o x
    → Tells o y
    → Tells o (if◌then◌else◌ {A = Verdict × Order} b x y)
if-Tells true x y p q = p
if-Tells false x y p q = q

report-Tells :
    (e : Ambient) (changed : Bool) (o ahead : Order)
    → ahead.pending_events ≡ o.pending_events
    → (changed ≡ false → IsQuiet o ahead)
    → Tells o (report e o.status changed ahead)
unfolding report
report-Tells e true o ahead p q = loud (announce-Announces e "agent" "" o ahead p)
report-Tells e false o ahead p q = quiet (q refl)

-- The first block changes the status only where it says so.
move_forward-IsQuiet :
    (u : FloorUpdate) (at : Time) (o : Order)
    → ((move_forward u at o).0.pending_events ≡ o.pending_events)
      × ((move_forward u at o).1 ≡ false → IsQuiet o (move_forward u at o).0)
unfolding move_forward
move_forward-IsQuiet u at o = ground arith

or-false : (a b : Bool) → (a || b) ≡ false → a ≡ false
or-false a b h = ground arith

pending-mirror_fields :
    (u : FloorUpdate) (at : Time) (o : Order)
    → (mirror_fields u at o).0.pending_events ≡ o.pending_events
unfolding mirror_fields
pending-mirror_fields u at o = refl

mirror_fields-IsQuiet :
    (u : FloorUpdate) (at : Time) (o ahead : Order)
    → IsQuiet o ahead
    → IsQuiet o (mirror_fields u at ahead).0
unfolding mirror_fields
mirror_fields-IsQuiet u at o ahead q = record {
  pending = q.pending;
  status = q.status;
  history = q.history;
}

unranked_stays :
    (u : FloorUpdate) (at : Time) (o : Order)
    → has_rank (floor_rank o.status) ≡ false
    → (move_forward u at o).1 ≡ false
unfolding move_forward moves_forward
unranked_stays u at o h = ground arith

settle-Tells :
    (e : Ambient) (u : FloorUpdate) (at : Time) (o ahead : Order) (changed : Bool)
    → ahead.pending_events ≡ o.pending_events
    → (changed ≡ false → IsQuiet o ahead)
    → (has_rank (floor_rank o.status) ≡ false → changed ≡ false)
    → Tells o (settle e o.status u at ahead changed)
unfolding settle
settle-Tells e u at o ahead changed p q r =
    let (mirrored, touched) = mirror_fields u at ahead in
    let fields = report e o.status (changed || touched) mirrored in
    let late = report e o.status changed ahead in
    elim (Bool-cases (has_rank (floor_rank o.status))) [
      | inr unranked ↦ rw unranked (quiet (q (r unranked)))
      | inl ranked ↦ rw ranked (
          if-Tells (before at ahead.floor_at) late fields (report-Tells e changed o ahead p q) (
            report-Tells e (changed || touched) o mirrored (pending-mirror_fields u at ahead ∙ p)
              (λ h. mirror_fields-IsQuiet u at o ahead (q (or-false changed touched h)))))
    ]

apply_forward-Tells : (e : Ambient) (u : FloorUpdate) (o : Order) → Tells o (apply_forward e u o)
unfolding apply_forward
apply_forward-Tells e u o =
    let at = time_of e u.at in
    let (pending, calm) = move_forward-IsQuiet u at o in
    settle-Tells e u at o (move_forward u at o).0 (move_forward u at o).1 pending calm
      (unranked_stays u at o)

apply_floor_cancel-Tells :
    (e : Ambient) (u : FloorUpdate) (o : Order) → Tells o (apply_floor_cancel e u o)
unfolding apply_floor_cancel
apply_floor_cancel-Tells e u o =
    if-Tells
      (not (status_eq o.status received)
        && not (status_eq o.status validated)
        && not (status_eq o.status scheduled))
      (stale, o) (applied, _) (quiet (still o))
      (loud (
        announce-Announces e "agent" _ o (move_to o cancelled (time_of e u.at) "agent" nil_uuid _)
          refl))

-- A floor update that is applied adds one event to the pending ones, from the old status to the new
-- one and with the order as it now is; one that is stale adds none and leaves the status and its
-- history. It is always one of the two.
pub apply_floor_update-Tells :
    (e : Ambient) (u : FloorUpdate) (o : Order) → Tells o (apply_floor_update e u o)
unfolding apply_floor_update
apply_floor_update-Tells e u o =
    if-Tells (status_eq u.status cancelled) (apply_floor_cancel e u o) (apply_forward e u o)
      (apply_floor_cancel-Tells e u o) (apply_forward-Tells e u o)

pending-move_if_other :
    (o : Order) (to : Status) (at : Time) (reason : String)
    → (move_if_other o to at reason).pending_events ≡ o.pending_events
unfolding move_if_other
pending-move_if_other o to at reason = ground arith

bring_back_if-Tells :
    (e : Ambient) (at : Time) (o : Order) (r : Option (Status × String))
    → Tells o (bring_back_if e at o r)
unfolding bring_back_if
bring_back_if-Tells e at o none = quiet (still o)
bring_back_if-Tells e at o (some (to, reason)) = loud (
    announce-Announces e "agent" reason o
      (record (move_if_other o to at reason) { driver_name = ""; floor_at = some at })
      (pending-move_if_other o to at reason))

-- A delivery that comes back, if applied, adds one event to the pending ones, from the old status to
-- the new one and with the order as it now is; if stale, none, and the status and its history stand.
-- It is always one of the two.
pub apply_not_delivered-Tells :
    (e : Ambient) (u : NotDeliveredUpdate) (o : Order) → Tells o (apply_not_delivered e u o)
unfolding apply_not_delivered
apply_not_delivered-Tells e u o =
    let back = bring_back_if e (time_of e u.at) o (return_target u o) in
    if-Tells (before (time_of e u.at) o.floor_at) (stale, o) back (quiet (still o))
      (bring_back_if-Tells e (time_of e u.at) o (return_target u o))
