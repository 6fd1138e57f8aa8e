-- ===== src/Order/Replay.antt =====
-- backend/internal/domain/order/floor.go: a floor event that is applied again is stale.
use posserver.Prelude.{
  String, ◌≡◌, ◌≢◌, ◌⊎◌, inl, inr, Bool, true, false, ◌||◌, arith, Bool-cases, str_eq_refl,
}
use posserver.Order.Types.{Time}
use posserver.Order.Status.{cancelled, status_eq, Status, floor_rank}
use posserver.Order.Aggregate.{Order, Ambient, announce, record_event}
use posserver.Order.Floor.{
  time_of, apply_forward, move_forward, moves_forward, apply_floor_update, apply_floor_cancel,
  FloorUpdate, report, settle, before, has_rank, differs, mirror_fields, stale,
}
use posserver.Order.Forward.{later, apply_forward-later}

-- The update has nothing that the order has not: it is too old, or all of it is there.
abbrev Spent : FloorUpdate → Time → Order → Type 0
Spent u at o = (before at o.floor_at ≡ true) ⊎ (mirror_fields u at o ≡ (o, false))

-- Announcing leaves what the update is compared with.
Spent-announce :
    (u : FloorUpdate) (at : Time) (e : Ambient) (from : Status) (actor reason : String) (o : Order)
    → Spent u at o
    → Spent u at (announce e from actor reason o)
unfolding announce record_event mirror_fields
Spent-announce u at e from actor reason o (inl h) = inl h
Spent-announce u at e from actor reason o (inr h) = inr (ground arith)

mirror_fields_again :
    (u : FloorUpdate) (at : Time) (o : Order)
    → before at o.floor_at ≡ false
    → mirror_fields u at (mirror_fields u at o).0 ≡ ((mirror_fields u at o).0, false)
unfolding mirror_fields differs
mirror_fields_again u at o h = ground (arith, str_eq_refl u.driver_name, str_eq_refl o.driver_name)

report-Spent :
    (e : Ambient) (from : Status) (u : FloorUpdate) (at : Time) (changed : Bool) (o : Order)
    → Spent u at o
    → Spent u at (report e from changed o).1
unfolding report
report-Spent e from u at true o h = Spent-announce u at e from "agent" "" o h
report-Spent e from u at false o h = h

settle-Spent :
    (e : Ambient) (from : Status) (u : FloorUpdate) (at : Time) (ahead : Order) (changed : Bool)
    → (has_rank (floor_rank from) ≡ false) ⊎ Spent u at (settle e from u at ahead changed).1
unfolding settle report
settle-Spent e from u at ahead changed =
    let (mirrored, touched) = mirror_fields u at ahead in
    elim (Bool-cases (has_rank (floor_rank from))) [
      | inr unranked ↦ inl unranked
      | inl ranked ↦ inr (
          rw ranked (elim (Bool-cases (before at ahead.floor_at)) [
            | inl late ↦ rw late (report-Spent e from u at changed ahead (inl late))
            | inr fresh ↦ rw fresh (
                report-Spent e from u at (changed || touched) mirrored
                  (inr (mirror_fields_again u at ahead fresh)))
          ]))
    ]

settle_again :
    (e : Ambient) (from : Status) (u : FloorUpdate) (at : Time) (o : Order)
    → (has_rank (floor_rank from) ≡ false) ⊎ Spent u at o
    → settle e from u at o false ≡ (stale, o)
unfolding settle report
settle_again e from u at o h = ground arith

move_forward_again :
    (u : FloorUpdate) (at : Time) (o o1 : Order)
    → o1.status ≡ later o.status u.status
    → move_forward u at o1 ≡ (o1, false)
unfolding move_forward moves_forward
move_forward_again u at o o1 h = ground arith

unranked_later :
    (s t : Status) → has_rank (floor_rank s) ≡ false → has_rank (floor_rank (later s t)) ≡ false
unfolding moves_forward
unranked_later s t h = ground arith

settle_moved_again :
    (e : Ambient) (u : FloorUpdate) (at : Time) (o o1 : Order)
    → o1.status ≡ later o.status u.status
    → (has_rank (floor_rank o.status) ≡ false) ⊎ Spent u at o1
    → settle e o1.status u at (move_forward u at o1).0 (move_forward u at o1).1 ≡ (stale, o1)
settle_moved_again e u at o o1 p (inl q) =
    rw (move_forward_again u at o o1 p)
      (settle_again e o1.status u at o1 (inl (rw p (unranked_later o.status u.status q))))
settle_moved_again e u at o o1 p (inr q) =
    rw (move_forward_again u at o o1 p) (settle_again e o1.status u at o1 (inr q))

apply_forward_again :
    (e e' : Ambient) (u : FloorUpdate) (o : Order)
    → time_of e u.at ≡ time_of e' u.at
    → let o1 = (apply_forward e u o).1 in apply_forward e' u o1 ≡ (stale, o1)
unfolding apply_forward
apply_forward_again e e' u o t =
    let at = time_of e u.at in
    let m = move_forward u at o in
    rw (← t) (
      settle_moved_again e' u at o _ (unfold apply_forward in apply_forward-later e u o)
        (settle-Spent e o.status u at m.0 m.1))

cancel_again :
    (e e' : Ambient) (u : FloorUpdate) (o : Order)
    → let o1 = (apply_floor_cancel e u o).1 in apply_floor_cancel e' u o1 ≡ (stale, o1)
unfolding apply_floor_cancel status_eq
cancel_again e e' u o = ground arith

-- A floor update that has a date, applied a second time, is stale and changes nothing.
pub apply_floor_update_again :
    (e e' : Ambient) (u : FloorUpdate) (o : Order)
    → u.at ≢ 0
    → let o1 = (apply_floor_update e u o).1 in apply_floor_update e' u o1 ≡ (stale, o1)
unfolding apply_floor_update
apply_floor_update_again e e' u o t = elim (Bool-cases (status_eq u.status cancelled)) [
  | inl c ↦ rw c (cancel_again e e' u o)
  | inr n ↦ rw n (apply_forward_again e e' u o (ground arith))
]
