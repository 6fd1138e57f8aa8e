-- ===== src/Dispatch/Outbox.antt =====
-- backend/internal/infra/database/repositories/outbox_repo.go and the insertion of events in
-- order_repo.go, with the statements of backend/sql/query.sql that they run: the outbox's two tables,
-- joined. A failed statement changes nothing, which is the caller's case.
use posserver.Prelude.{
  ℕ, ◌+◌, String, Bool, true, false, ◌&&◌, ◌||◌, Option, none, some, List, [], ◌∷◌, ◌++◌, ltb, leb,
  ◌==◌, if◌then◌else◌, take, str_eq,
}
use posserver.Prelude.Sort.{sort_stable}
use posserver.Prelude.Strings.{codes}
use posserver.Order.Types.{Time, Uuid}
use posserver.Order.Aggregate.{DomainEvent}

-- A row of outbox_dispatches with its row of outbox_events.
pub record Row : Type 0 where
  pub event : DomainEvent
  pub tenant_id : Uuid
  pub location_id : Uuid
  pub handler_name : String
  pub dispatched_at : Option Time
  pub attempts : ℕ
  pub last_error : String
  pub last_attempt_at : Option Time
  pub next_attempt_at : Option Time

-- The primary key.
abbrev pub is_row : Uuid → String → Row → Bool
is_row event_id handler_name r = str_eq r.event.id event_id && str_eq r.handler_name handler_name

unfoldable pub has_row : Uuid → String → List Row → Bool
has_row event_id handler_name [] = false
has_row event_id handler_name (r ∷ rs) =
    is_row event_id handler_name r || has_row event_id handler_name rs

abbrev pub new_row : DomainEvent → Uuid → Uuid → String → Row
new_row ev tenant_id location_id name = record {
  event = ev;
  tenant_id = tenant_id;
  location_id = location_id;
  handler_name = name;
  dispatched_at = none;
  attempts = 0;
  last_error = "";
  last_attempt_at = none;
  next_attempt_at = none;
}

-- `InsertOutboxDispatch` for each handler: an event gets one row per handler.
unfoldable pub insert_dispatches : DomainEvent → Uuid → Uuid → List String → List Row → List Row
unfolding has_row
insert_dispatches ev tenant_id location_id [] rows = rows
insert_dispatches ev tenant_id location_id (name ∷ names) rows =
    insert_dispatches ev tenant_id location_id names
      (if has_row ev.id name rows then rows else rows ++ new_row ev tenant_id location_id name ∷ [])

abbrev pub is_unset : Option Time → Bool
is_unset none = true
is_unset (some t) = false

abbrev pub is_due_at : Time → Option Time → Bool
is_due_at now none = true
is_due_at now (some t) = leb t now

-- The conditions of the query for pending events.
abbrev pub is_pending : Time → String → Row → Bool
is_pending now handler_name r =
    str_eq r.handler_name handler_name
    && is_unset r.dispatched_at
    && is_due_at now r.next_attempt_at

unfoldable pub pending_rows : Time → String → List Row → List Row
pending_rows now handler_name [] = []
pending_rows now handler_name (r ∷ rs) =
    let rest = pending_rows now handler_name rs in
    if is_pending now handler_name r then r ∷ rest else rest

unfoldable pub text_before : List ℕ → List ℕ → Bool
text_before [] [] = false
text_before [] (d ∷ ds) = true
text_before (c ∷ cs) [] = false
text_before (c ∷ cs) (d ∷ ds) = if c == d then text_before cs ds else ltb c d

-- `ORDER BY e.occurred_at ASC, e.id ASC`.
unfoldable pub row_before : Row → Row → Bool
unfolding text_before
row_before r s =
    ltb r.event.occurred_at s.event.occurred_at
    || (r.event.occurred_at == s.event.occurred_at
        && text_before (codes r.event.id) (codes s.event.id))

-- `PendingEventsForHandler`.
unfoldable pub pending_events : Time → String → ℕ → List Row → List Row
unfolding pending_rows row_before sort_stable
pending_events now handler_name limit rows =
    take limit (sort_stable row_before (pending_rows now handler_name rows))

-- `MarkDispatched`.
unfoldable pub mark_dispatched : Time → Uuid → String → List Row → List Row
mark_dispatched now event_id handler_name [] = []
mark_dispatched now event_id handler_name (r ∷ rs) =
    (if is_row event_id handler_name r
      then record r {
        dispatched_at = some now;
        attempts = r.attempts + 1;
        last_error = "";
        last_attempt_at = some now;
        next_attempt_at = none;
      }
      else r)
    ∷ mark_dispatched now event_id handler_name rs

abbrev pub unless_zero : Time → Option Time
unless_zero t = if t == 0 then none else some t

-- `MarkFailed`.
unfoldable pub mark_failed : Time → Uuid → String → String → Time → List Row → List Row
mark_failed now event_id handler_name message next [] = []
mark_failed now event_id handler_name message next (r ∷ rs) =
    (if is_row event_id handler_name r
      then record r {
        attempts = r.attempts + 1;
        last_error = message;
        last_attempt_at = some now;
        next_attempt_at = unless_zero next;
      }
      else r)
    ∷ mark_failed now event_id handler_name message next rs

-- `ResetBackoffForScope`.
unfoldable pub reset_backoff : Uuid → Uuid → List Row → List Row
reset_backoff tenant_id location_id [] = []
reset_backoff tenant_id location_id (r ∷ rs) =
    (if is_unset r.dispatched_at && str_eq r.tenant_id tenant_id && str_eq r.location_id location_id
      then record r { next_attempt_at = none }
      else r)
    ∷ reset_backoff tenant_id location_id rs
