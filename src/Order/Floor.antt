-- ===== src/Order/Floor.antt =====
-- backend/internal/domain/order/floor.go: the floor updates that the restaurant's agent reports.
-- Each returns the verdict and the order, which it changes in place in the source.
use posserver.Prelude.{
  ℕ, String, Bool, true, false, not, ◌&&◌, ◌||◌, Option, none, some, ltb, ◌==◌, if◌then◌else◌,
  str_eq,
}
use posserver.Order.Types.{Time, is_zero, nil_uuid}
use posserver.Order.Status.{
  Status, received, validated, scheduled, ready, on_delivery, completed, cancelled, status_eq,
  floor_rank,
}
use posserver.Order.Aggregate.{Order, Ambient, move_to, announce}

-- `FloorApplied` … `FloorInvalid`.
pub data Verdict : Type 0 where
  applied duplicate stale not_found invalid : Verdict

pub record FloorUpdate : Type 0 where
  pub status : Status
  pub kitchen_number : Option ℕ
  pub estimated_ready_at : Option Time
  pub driver_name : String
  pub at : Time
  pub auto : Bool

-- `u.At`, or the clock's time where it is missing.
abbrev pub time_of : Ambient → Time → Time
time_of e at = if is_zero at then e.at else at

-- `a.Before(*b)` for an optional `b`.
abbrev pub before : Time → Option Time → Bool
before t none = false
before t (some b) = ltb t b

-- `a.After(*b)`, or no `b`.
abbrev pub after_or_none : Time → Option Time → Bool
after_or_none t none = true
after_or_none t (some b) = ltb b t

-- Whether the rank of `next` is above the rank of `cur`, both having one.
unfoldable pub moves_forward : Option ℕ → Option ℕ → Bool
moves_forward (some cur) (some next) = ltb cur next
moves_forward _ _ = false

abbrev pub has_rank : Option ℕ → Bool
has_rank none = false
has_rank (some r) = true

-- An optional number that the update names, and the order has not.
unfoldable pub differs : Option ℕ → Option ℕ → Bool
differs none old = false
differs (some new) none = true
differs (some new) (some old) = not (old == new)

abbrev pub newer : Option ℕ → Option ℕ → Option ℕ
newer none old = old
newer (some new) old = some new

-- The first block: the status moves to one of a higher rank.
unfoldable pub move_forward : FloorUpdate → Time → Order → Order × Bool
unfolding moves_forward move_to
move_forward u at o =
    if moves_forward (floor_rank o.status) (floor_rank u.status)
    then (
      move_to o u.status at "agent" nil_uuid
          (if u.auto then "auto-finished at batch close" else "floor"),
      true,
    )
    else (o, false)

-- The last blocks: the floor's time and the mirrored fields.
unfoldable pub mirror_fields : FloorUpdate → Time → Order → Order × Bool
unfolding differs
mirror_fields u at o = (
  record o {
    floor_at = if after_or_none at o.floor_at then some at else o.floor_at;
    kitchen_number =
        if differs u.kitchen_number o.kitchen_number
        then newer u.kitchen_number o.kitchen_number
        else o.kitchen_number;
    estimated_ready_at =
        if differs u.estimated_ready_at o.estimated_ready_at
        then newer u.estimated_ready_at o.estimated_ready_at
        else o.estimated_ready_at;
    driver_name =
        if not (str_eq u.driver_name "") && not (str_eq u.driver_name o.driver_name)
        then u.driver_name
        else o.driver_name;
  },
  differs u.kitchen_number o.kitchen_number
      || differs u.estimated_ready_at o.estimated_ready_at
      || (not (str_eq u.driver_name "") && not (str_eq u.driver_name o.driver_name)),
)

-- `applyFloorCancel`.
unfoldable pub apply_floor_cancel : Ambient → FloorUpdate → Order → Verdict × Order
unfolding move_to announce
apply_floor_cancel e u o =
    if not (status_eq o.status received)
      && not (status_eq o.status validated)
      && not (status_eq o.status scheduled)
    then (stale, o)
    else (let reason : String = "not accepted before the batch was closed" in
        (
          applied,
          announce e o.status "agent" reason
              (move_to o cancelled (time_of e u.at) "agent" nil_uuid reason),
        ))

-- `if !changed` … and the event that a change records.
unfoldable pub report : Ambient → Status → Bool → Order → Verdict × Order
unfolding announce
report e from changed o =
    if not changed then (stale, o) else (applied, announce e from "agent" "" o)

-- `ApplyFloorUpdate` after its first block, which gave `moved` and `changed`. `from` is the status
-- at the call.
unfoldable pub settle : Ambient → Status → FloorUpdate → Time → Order → Bool → Verdict × Order
settle e from u at moved changed =
    if not (has_rank (floor_rank from))
    then (stale, moved)
    else if before at moved.floor_at
    then report e from changed moved
    else (let (mirrored, touched) = mirror_fields u at moved in
        report e from (changed || touched) mirrored)

-- `ApplyFloorUpdate` once the cancelling is set apart.
unfoldable pub apply_forward : Ambient → FloorUpdate → Order → Verdict × Order
apply_forward e u o =
    let at = time_of e u.at in
    let (moved, changed) = move_forward u at o in settle e o.status u at moved changed

-- `ApplyFloorUpdate`.
unfoldable pub apply_floor_update : Ambient → FloorUpdate → Order → Verdict × Order
apply_floor_update e u o =
    if status_eq u.status cancelled then apply_floor_cancel e u o else apply_forward e u o

pub record NotDeliveredUpdate : Type 0 where
  pub action : String
  pub at : Time
  pub auto : Bool

-- The switch of `ApplyNotDelivered`: the target and the reason, or stale.
unfoldable pub return_target : NotDeliveredUpdate → Order → Option (Status × String)
return_target u o =
    if str_eq u.action "retry"
    then (if status_eq o.status on_delivery || status_eq o.status completed
        then some (ready, "not delivered: came back with the driver, to go out again")
        else if status_eq o.status ready && not (str_eq o.driver_name "")
        then some (ready, "")
        else none)
    else if str_eq u.action "cancel"
    then (if not (status_eq o.status ready)
          && not (status_eq o.status on_delivery)
          && not (status_eq o.status completed)
        then none
        else some (
          cancelled,
          if u.auto
              then "not delivered: came back and not sent again before the batch was closed"
              else "not delivered: came back with the driver, cancelled",
        ))
    else none

-- `if to != from`: the move that the writes begin with.
unfoldable pub move_if_other : Order → Status → Time → String → Order
unfolding move_to
move_if_other o to at reason =
    if status_eq to o.status then o else move_to o to at "agent" nil_uuid reason

-- The writes of `ApplyNotDelivered` for a target.
unfoldable pub bring_back : Ambient → Time → Status → String → Order → Order
unfolding move_if_other announce
bring_back e at to reason o =
    announce e o.status "agent" reason
      (record (move_if_other o to at reason) { driver_name = ""; floor_at = some at })

unfoldable pub bring_back_if : Ambient → Time → Order → Option (Status × String) → Verdict × Order
unfolding bring_back
bring_back_if e at o none = (stale, o)
bring_back_if e at o (some (to, reason)) = (applied, bring_back e at to reason o)

-- `ApplyNotDelivered`.
unfoldable pub apply_not_delivered : Ambient → NotDeliveredUpdate → Order → Verdict × Order
apply_not_delivered e u o =
    let at = time_of e u.at in
    if before at o.floor_at then (stale, o) else bring_back_if e at o (return_target u o)
