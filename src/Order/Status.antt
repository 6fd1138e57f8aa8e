-- ===== src/Order/Status.antt =====
-- backend/internal/domain/order/entity.go and floor.go: the lifecycle states, the transition table,
-- the floor's order of them and its names.
use posserver.Prelude.{
  ℕ, String, Bool, true, false, ◌||◌, Option, none, some, List, [], ◌∷◌, if◌then◌else◌, str_eq,
}
use posserver.Order.Types.{Time, Uuid}

-- A `Status` is a text: the declared ones, and `other` for any text that is none of them.
pub data Status : Type 0 where
  received validated scheduled accepted preparing ready on_delivery completed rejected cancelled :
      Status
  other : String → Status

unfoldable pub status_text : Status → String
status_text received = "received"
status_text validated = "validated"
status_text scheduled = "scheduled"
status_text accepted = "accepted"
status_text preparing = "preparing"
status_text ready = "ready"
status_text on_delivery = "on_delivery"
status_text completed = "completed"
status_text rejected = "rejected"
status_text cancelled = "cancelled"
status_text (other s) = s

-- Go's `==` on statuses.
unfoldable pub status_eq : Status → Status → Bool
status_eq received received = true
status_eq validated validated = true
status_eq scheduled scheduled = true
status_eq accepted accepted = true
status_eq preparing preparing = true
status_eq ready ready = true
status_eq on_delivery on_delivery = true
status_eq completed completed = true
status_eq rejected rejected = true
status_eq cancelled cancelled = true
status_eq (other s) (other t) = str_eq s t
status_eq _ _ = false

pub record StatusEvent : Type 0 where
  pub from : Option Status  -- `none` is the empty text of a first entry
  pub to : Status
  pub at : Time
  pub actor_id : Uuid
  pub actor : String
  pub reason : String

-- `validTransitions[from]`: the targets that the table allows, `none` where it has no row.
unfoldable pub valid_transitions : Status → Option (List Status)
valid_transitions received = some (validated ∷ rejected ∷ [])
valid_transitions validated = some (accepted ∷ rejected ∷ [])
valid_transitions accepted = some (preparing ∷ cancelled ∷ [])
valid_transitions preparing = some (ready ∷ cancelled ∷ [])
valid_transitions ready = some (completed ∷ cancelled ∷ [])
valid_transitions _ = none

unfoldable pub is_terminal : Status → Bool
is_terminal s = status_eq s completed || status_eq s rejected || status_eq s cancelled

-- `floorRank`: the lifecycle's order for the floor's forward moves.
unfoldable pub floor_rank : Status → Option ℕ
floor_rank received = some 0
floor_rank validated = some 1
floor_rank scheduled = some 2
floor_rank accepted = some 3
floor_rank preparing = some 4
floor_rank ready = some 5
floor_rank on_delivery = some 6
floor_rank completed = some 7
floor_rank _ = none

-- `FloorStatus`: the agent's name of a floor state.
unfoldable pub floor_status : String → Option Status
floor_status s =
    if str_eq s "scheduled"
    then some scheduled
    else if str_eq s "accepted"
    then some accepted
    else if str_eq s "ready"
    then some ready
    else if str_eq s "on_delivery"
    then some on_delivery
    else if str_eq s "delivered"
    then some completed
    else if str_eq s "cancelled"
    then some cancelled
    else none
