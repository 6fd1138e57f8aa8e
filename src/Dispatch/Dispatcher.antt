-- ===== src/Dispatch/Dispatcher.antt =====
-- backend/internal/dispatch/dispatcher.go: the loop that hands pending events to the handlers. What a
-- handler answers, which calls of the database fail, the clock and the random numbers come from outside.
use posserver.Prelude.{ℕ, ◌+◌, String, Bool, List, [], ◌∷◌, ◌++◌, if◌then◌else◌}
use posserver.Order.Types.{Time, Uuid}
use posserver.Order.Aggregate.{DomainEvent}
use posserver.Dispatch.Backoff.{backoff_delay}
use posserver.Dispatch.Outbox.{
  Row, insert_dispatches, pending_events, mark_dispatched, mark_failed, reset_backoff,
}

-- What `Handle` returns: no error, an error that wraps `ErrTransient`, or another.
pub data Outcome : Type 0 where
  handled : Outcome
  failed : Bool → String → Outcome

-- One call of `dispatchOne` as its surroundings make it.
pub record Answer : Type 0 where
  pub outcome : Outcome
  pub mark_fails : Bool
  pub now : Time
  pub rand_n : ℕ → ℕ

-- The outbox, and the events that each handler handled without an error.
pub record State : Type 0 where
  pub rows : List Row
  pub log : List (String × Uuid)

unfoldable pub route : String → Row → Answer → Outcome → State → State
unfolding mark_dispatched mark_failed backoff_delay
route name pe a handled s = record {
  rows = if a.mark_fails then s.rows else mark_dispatched a.now pe.event.id name s.rows;
  log = s.log ++ (name, pe.event.id) ∷ [];
}
route name pe a (failed transient message) s = record s {
  rows =
      if a.mark_fails
      then s.rows
      else mark_failed a.now pe.event.id name message
          (a.now + backoff_delay pe.attempts transient a.rand_n) s.rows;
}

-- `dispatchOne`.
unfoldable pub dispatch_one : String → Row → Answer → State → State
unfolding route
dispatch_one name pe a s = route name pe a a.outcome s

unfoldable pub dispatch_batch : String → (Uuid → Answer) → List Row → State → State
unfolding dispatch_one
dispatch_batch name answer [] s = s
dispatch_batch name answer (pe ∷ batch) s =
    dispatch_batch name answer batch (dispatch_one name pe (answer pe.event.id) s)

-- How a handler's turn goes: whether the query fails, when it is made, and the answers.
pub record Turn : Type 0 where
  pub query_fails : Bool
  pub now : Time
  pub answer : Uuid → Answer

-- `runHandler`.
unfoldable pub run_handler : ℕ → String → Turn → State → State
unfolding dispatch_batch
run_handler batch_size name t s =
    if t.query_fails
    then s
    else dispatch_batch name t.answer (pending_events t.now name batch_size s.rows) s

-- `tick`.
unfoldable pub tick : ℕ → List String → (String → Turn) → State → State
unfolding run_handler
tick batch_size [] turn s = s
tick batch_size (name ∷ names) turn s =
    tick batch_size names turn (run_handler batch_size name (turn name) s)

-- What happens to the outbox: an order's event is stored, `Run` makes a tick, an agent subscribes
-- (`WakeScope`). An administrator's deletions (`DeleteByID` and `DeleteAll` of the order repository,
-- and a tenant's) are not among these.
pub data Happening : Type 0 where
  emitted : DomainEvent → Uuid → Uuid → Happening
  ticked : (String → Turn) → Happening
  subscribed : Bool → Uuid → Uuid → Happening

unfoldable pub happen : ℕ → List String → State → Happening → State
unfolding tick insert_dispatches reset_backoff
happen batch_size handlers s (emitted ev tenant_id location_id) = record s {
  rows = insert_dispatches ev tenant_id location_id handlers s.rows;
}
happen batch_size handlers s (ticked turn) = tick batch_size handlers turn s
happen batch_size handlers s (subscribed reset_fails tenant_id location_id) = record s {
  rows = if reset_fails then s.rows else reset_backoff tenant_id location_id s.rows;
}

unfoldable pub history : ℕ → List String → State → List Happening → State
unfolding happen
history batch_size handlers s [] = s
history batch_size handlers s (h ∷ hs) =
    history batch_size handlers (happen batch_size handlers s h) hs
