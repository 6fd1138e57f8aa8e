-- ===== src/Order/Edges.antt =====
-- The lifecycle that `Transition` allows, as a relation, against the table in
-- backend/internal/domain/order/entity.go.
use posserver.Prelude.{
  String, ◌≡◌, refl, ap, ◌≢◌, Bool, true, false, Option, none, some, List, [], ◌∷◌, ◌++◌, arith,
  str_eq_iff, str_eq_refl,
}
use posserver.Order.Types.{Uuid}
use posserver.Order.Status.{
  Status, received, validated, accepted, preparing, ready, completed, rejected, cancelled, other,
  status_eq, StatusEvent, valid_transitions, is_terminal,
}
use posserver.Order.Aggregate.{Order, Ambient, ok, transition, status_mem, move_to, announce}

infix 40 ◌⟶◌
pub data ◌⟶◌ : Status → Status → Type 0 where
  validate : received ⟶ validated
  refuse : received ⟶ rejected
  accept : validated ⟶ accepted
  turn_down : validated ⟶ rejected
  start : accepted ⟶ preparing
  withdraw : accepted ⟶ cancelled
  finish : preparing ⟶ ready
  stop : preparing ⟶ cancelled
  complete : ready ⟶ completed
  give_up : ready ⟶ cancelled

ruleset edges =
    (validate, refuse, accept, turn_down, start, withdraw, finish, stop, complete, give_up)

-- What the history gains by a move.
abbrev pub entry : Order → Status → Ambient → String → Uuid → String → StatusEvent
entry o to e actor actor_id reason = record {
  from = some o.status;
  to = to;
  at = e.now;
  actor_id = actor_id;
  actor = actor;
  reason = reason;
}

pub status_eq_refl : (s : Status) → status_eq s s ≡ true
unfolding status_eq
status_eq_refl (other t) = str_eq_refl t
status_eq_refl _ = refl

pub status_eq-true : (s t : Status) → status_eq s t ≡ true → s ≡ t
unfolding status_eq
status_eq-true (other a) (other b) h = ap other ((str_eq_iff a b).0 h)
status_eq-true received t h = ground arith
status_eq-true _ t h = ground arith

-- Whether the table allows the move.
abbrev permits : Option (List Status) → Status → Bool
permits none to = false
permits (some allowed) to = status_mem to allowed

permits-⟶ : (s to : Status) → permits (valid_transitions s) to ≡ true → s ⟶ to
unfolding valid_transitions status_mem status_eq
permits-⟶ received to h = grind (arith, edges)
permits-⟶ _ to h = grind (arith, edges)

⟶-permits :
    {s to : Status} → s ⟶ to → (permits (valid_transitions s) to ≡ true) × (is_terminal s ≡ false)
unfolding valid_transitions status_mem status_eq is_terminal
⟶-permits validate = (refl, refl)
⟶-permits _ = (refl, refl)

module _ (e : Ambient) (o : Order) (to : Status) (actor : String) (who : Uuid)
    (reason : String) where
  -- A transition that succeeds follows an edge, sets the status, adds one entry to the history, and
  -- names a reason if it cancels.
  pub transition-⟶ :
      {o' : Order}
      → transition e o to actor who reason ≡ ok o'
      → (o.status ⟶ to)
        × (o'.status ≡ to)
        × (o'.status_history ≡ o.status_history ++ entry o to e actor who reason ∷ [])
        × (to ≡ cancelled → reason ≢ "")
  unfolding transition
  transition-⟶ h = ground (
    arith,
    permits-⟶ o.status to,
    status_eq-true to cancelled,
    status_eq_refl to,
    str_eq_iff reason "",
  )

  -- Along every edge a transition succeeds, where a cancellation names a reason.
  pub ⟶-transition :
      o.status ⟶ to
      → (to ≡ cancelled → reason ≢ "")
      → (o' : Order) × (transition e o to actor who reason ≡ ok o')
  unfolding transition
  ⟶-transition h r = (
    announce e o.status actor reason (move_to o to e.now actor who reason),
    ground (arith, ⟶-permits h, status_eq-true to cancelled, str_eq_iff reason ""),
  )
