-- ===== src/Order/Forward.antt =====
-- backend/internal/domain/order/floor.go: floor updates are applied forward only, whatever order
-- they arrive in, and a replay changes nothing.
use posserver.Prelude.{
  ℕ, ◌≡◌, refl, sym, ap, ◌∙◌, ◌≢◌, inl, inr, Bool, true, false, ◌||◌, some, arith, if◌then◌else◌,
  Bool-cases, Option-cases,
}
use posserver.Order.Types.{Time}
use posserver.Order.Status.{Status, received, cancelled, floor_rank}
use posserver.Order.Aggregate.{Order, Ambient}
use posserver.Order.Floor.{
  FloorUpdate, apply_floor_update, apply_forward, time_of, report, settle, before, has_rank,
  move_forward, mirror_fields, moves_forward,
}
use posserver.Order.Edges.{status_eq-true}

-- The later of two statuses in the floor's order; a status without a rank neither moves nor is
-- moved to.
abbrev pub later : Status → Status → Status
later s t = if moves_forward (floor_rank s) (floor_rank t) then t else s

status-move_forward :
    (u : FloorUpdate) (at : Time) (o : Order)
    → (move_forward u at o).0.status ≡ later o.status u.status
unfolding move_forward
status-move_forward u at o = ground arith

status-report :
    (e : Ambient) (from : Status) (changed : Bool) (o : Order)
    → (report e from changed o).1.status ≡ o.status
unfolding report
status-report e from true o = refl
status-report e from false o = refl

status-settle :
    (e : Ambient) (from : Status) (u : FloorUpdate) (at : Time) (ahead : Order) (changed : Bool)
    → (settle e from u at ahead changed).1.status ≡ ahead.status
unfolding settle mirror_fields
status-settle e from u at ahead changed =
    let (mirrored, touched) = mirror_fields u at ahead in
    elim (Bool-cases (has_rank (floor_rank from))) [
      | inl ranked ↦ rw ranked (elim (Bool-cases (before at ahead.floor_at)) [
        | inl late ↦ rw late (status-report e from changed ahead)
        | inr fresh ↦ rw fresh (status-report e from (changed || touched) mirrored)
      ])
      | inr unranked ↦ rw unranked
    ]

pub apply_forward-later :
    (e : Ambient) (u : FloorUpdate) (o : Order)
    → (apply_forward e u o).1.status ≡ later o.status u.status
unfolding apply_forward
apply_forward-later e u o =
    let at = time_of e u.at in
    let m = move_forward u at o in
    status-settle e o.status u at m.0 m.1 ∙ status-move_forward u at o

-- A floor update that is no cancellation sets the status to the later of the order's and its own.
pub apply_floor_update-later :
    (e : Ambient) (u : FloorUpdate) (o : Order)
    → u.status ≢ cancelled
    → (apply_floor_update e u o).1.status ≡ later o.status u.status
unfolding apply_floor_update
apply_floor_update-later e u o h =
    ground (arith, status_eq-true u.status cancelled, apply_forward-later e u o)

floor_rank_inj : (s t : Status) {r : ℕ} → floor_rank s ≡ some r → floor_rank t ≡ some r → s ≡ t
unfolding floor_rank
floor_rank_inj received t p q = ground arith
floor_rank_inj _ t p q = ground arith

tie :
    (s t : Status)
    → has_rank (floor_rank s) ≡ true
    → has_rank (floor_rank t) ≡ true
    → moves_forward (floor_rank s) (floor_rank t) ≡ false
    → moves_forward (floor_rank t) (floor_rank s) ≡ false
    → s ≡ t
unfolding moves_forward
tie s t p q h k = elim (Option-cases (floor_rank s)) [
  | inl e ↦ cc
  | inr (r, e) ↦ elim (Option-cases (floor_rank t)) [
    | inl f ↦ cc
    | inr (r', f) ↦ let same : r' ≡ r = ground arith in floor_rank_inj s t e (f ∙ ap some same)
  ]
]

later_comm : (s a b : Status) → later (later s a) b ≡ later (later s b) a
unfolding moves_forward
later_comm s a b = ground (arith, tie a b)

-- Two floor updates, neither a cancellation, leave the same status in either order of arrival.
pub apply_floor_update_comm :
    (e e' f f' : Ambient) (u v : FloorUpdate) (o : Order)
    → u.status ≢ cancelled
    → v.status ≢ cancelled
    → (apply_floor_update e' v (apply_floor_update e u o).1).1.status
      ≡ (apply_floor_update f' u (apply_floor_update f v o).1).1.status
apply_floor_update_comm e e' f f' u v o p q =
    let o1 = (apply_floor_update e u o).1 in
    let o2 = (apply_floor_update f v o).1 in
    apply_floor_update-later e' v o1 q
    ∙ ap (λ s. later s v.status) (apply_floor_update-later e u o p)
    ∙ later_comm o.status u.status v.status
    ∙ sym (ap (λ s. later s u.status) (apply_floor_update-later f v o q))
    ∙ sym (apply_floor_update-later f' u o2 p)
