-- ===== src/Order/Returned.antt =====
-- backend/internal/domain/order/floor.go, `ApplyNotDelivered`: the one backwards step, and what is
-- announced by every floor call.
use posserver.Prelude.{
  String, ◌≡◌, Bool, true, false, not, ◌&&◌, ◌||◌, Option, none, some, arith, if◌then◌else◌, str_eq,
}
use posserver.Order.Types.{Time}
use posserver.Order.Status.{Status, ready, on_delivery, completed, cancelled, status_eq}
use posserver.Order.Aggregate.{Order, Ambient}
use posserver.Order.Edges.{status_eq-true}
use posserver.Order.Floor.{
  NotDeliveredUpdate, stale, applied, time_of, before, return_target, move_if_other, bring_back_if,
  apply_not_delivered,
}

-- The statuses from which a delivery can come back.
abbrev pub can_return : String → Status → String → Bool
can_return action s driver =
    if str_eq action "retry"
    then status_eq s on_delivery
      || status_eq s completed
      || (status_eq s ready && not (str_eq driver ""))
    else (str_eq action "cancel"
        && (status_eq s ready || status_eq s on_delivery || status_eq s completed))

abbrev pub return_status : String → Status
return_status action = if str_eq action "retry" then ready else cancelled

abbrev pub accepts : Ambient → NotDeliveredUpdate → Order → Bool
accepts e u o =
    not (before (time_of e u.at) o.floor_at) && can_return u.action o.status o.driver_name

abbrev return_reason : Option (Status × String) → String
return_reason none = ""
return_reason (some r) = r.1

return_target-some :
    (u : NotDeliveredUpdate) (o : Order)
    → can_return u.action o.status o.driver_name ≡ true
    → return_target u o ≡ some (return_status u.action, return_reason (return_target u o))
unfolding return_target
return_target-some u o h = ground arith

return_target-none :
    (u : NotDeliveredUpdate) (o : Order)
    → can_return u.action o.status o.driver_name ≡ false
    → return_target u o ≡ none
unfolding return_target
return_target-none u o h = ground arith

move_if_other-status :
    (o : Order) (to : Status) (at : Time) (reason : String)
    → (move_if_other o to at reason).status ≡ to
unfolding move_if_other
move_if_other-status o to at reason = ground (arith, status_eq-true to o.status)

-- A not-delivered event that is not older than the newest floor event is applied where the order is
-- out, delivered or, to retry, ready with a driver named (to cancel, ready): the order is then ready
-- or cancelled as asked, with no driver, and the event's time is the newest. Any other changes nothing.
pub apply_not_delivered_cases :
    (e : Ambient) (u : NotDeliveredUpdate) (o : Order)
    → let after = apply_not_delivered e u o in
      (accepts e u o ≡ true
        → (after.0 ≡ applied)
          × (after.1.status ≡ return_status u.action)
          × (after.1.driver_name ≡ "")
          × (after.1.floor_at ≡ some (time_of e u.at)))
      × (accepts e u o ≡ false → after ≡ (stale, o))
unfolding apply_not_delivered bring_back_if
apply_not_delivered_cases e u o =
    let to = return_target-some u o in
    ground (
      arith,
      to,
      return_target-none u o,
      move_if_other-status o (return_status u.action) (time_of e u.at)
          (return_reason (return_target u o)),
    )
