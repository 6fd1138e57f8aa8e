-- ===== src/Dispatch/Logged.antt =====
-- backend/internal/dispatch: over the whole life of an outbox no event is lost.
use posserver.Prelude.{
  IsIn, ℕ, String, ◌≡◌, ◌∙◌, inl, inr, Bool, true, false, List, [], ◌∷◌, if◌then◌else◌, Bool-cases,
  contains,
}
use posserver.Order.Types.{Uuid}
use posserver.Order.Aggregate.{DomainEvent}
use posserver.Dispatch.Outbox.{Row, has_row, pending_events}
use posserver.Dispatch.Dispatcher.{
  Answer, Outcome, handled, failed, State, Turn, Happening, emitted, ticked, subscribed, route,
  dispatch_one, dispatch_batch, run_handler, tick, happen, history,
}
use posserver.Dispatch.Inserted.{insert_dispatches-Inserts, insert_dispatches-has_row}
use posserver.Dispatch.Marks.{
  in_log_last, AreHandled, logged_more, logged_one, failed_one, reset_handled,
  mark_dispatched-has_row, mark_failed-has_row, reset_backoff-has_row,
}

-- Later: the rows are still there, and what was marked is logged.
record Keeps (s s' : State) : Type 0 where
  handled : AreHandled s.log s.rows → AreHandled s'.log s'.rows
  there : (id name : String) → has_row id name s.rows ≡ true → has_row id name s'.rows ≡ true

Keeps-refl : (s : State) → Keeps s s
Keeps-refl s = record { handled = λ h. h; there = λ id name h. h }

Keeps-trans : (s t u : State) → Keeps s t → Keeps t u → Keeps s u
Keeps-trans s t u k l = record {
  handled = λ h. l.handled (k.handled h);
  there = λ id name h. l.there id name (k.there id name h);
}

if-Keeps : (b : Bool) (s t u : State) → Keeps s t → Keeps s u → Keeps s (if b then t else u)
if-Keeps true s t u k l = k
if-Keeps false s t u k l = l

route-Keeps :
    (name : String) (pe : Row) (a : Answer) (o : Outcome) (s : State)
    → Keeps s (route name pe a o s)
unfolding route
route-Keeps name pe a handled s = elim (Bool-cases a.mark_fails) [
  | inl f ↦ rw f (record { handled = logged_more s.log _ s.rows; there = λ id n h. h })
  | inr f ↦ rw f (record {
    handled = λ h.
        logged_one a.now pe.event.id name _ s.rows (in_log_last s.log name pe.event.id)
          (logged_more s.log _ s.rows h);
    there = λ id n h. mark_dispatched-has_row a.now id n pe.event.id name s.rows ∙ h;
  })
]
route-Keeps name pe a (failed transient message) s = elim (Bool-cases a.mark_fails) [
  | inl f ↦ rw f (Keeps-refl s)
  | inr f ↦ rw f (record {
    handled = failed_one a.now pe.event.id name message _ s.log s.rows;
    there = λ id n h. mark_failed-has_row a.now id n pe.event.id name message _ s.rows ∙ h;
  })
]

dispatch_batch-Keeps :
    (name : String) (answer : Uuid → Answer) (batch : List Row) (s : State)
    → Keeps s (dispatch_batch name answer batch s)
unfolding dispatch_batch dispatch_one
dispatch_batch-Keeps name answer [] s = Keeps-refl s
dispatch_batch-Keeps name answer (pe ∷ batch) s =
    let a = answer pe.event.id in
    Keeps-trans s (route name pe a a.outcome s) _ (route-Keeps name pe a a.outcome s)
      (dispatch_batch-Keeps name answer batch _)

tick-Keeps :
    (batch_size : ℕ) (names : List String) (turn : String → Turn) (s : State)
    → Keeps s (tick batch_size names turn s)
unfolding tick run_handler
tick-Keeps batch_size [] turn s = Keeps-refl s
tick-Keeps batch_size (name ∷ names) turn s =
    let t = turn name in
    let batch = pending_events t.now name batch_size s.rows in
    Keeps-trans s (if t.query_fails then s else dispatch_batch name t.answer batch s) _
      (if-Keeps t.query_fails s s _ (Keeps-refl s) (dispatch_batch-Keeps name t.answer batch s))
      (tick-Keeps batch_size names turn _)

happen-Keeps :
    (batch_size : ℕ) (handlers : List String) (s : State) (h : Happening)
    → Keeps s (happen batch_size handlers s h)
unfolding happen
happen-Keeps batch_size handlers s (emitted ev tenant_id location_id) =
    let i = insert_dispatches-Inserts ev tenant_id location_id handlers s.rows in
    record { handled = i.handled s.log; there = i.there }
happen-Keeps batch_size handlers s (ticked turn) = tick-Keeps batch_size handlers turn s
happen-Keeps batch_size handlers s (subscribed true tenant_id location_id) = Keeps-refl s
happen-Keeps batch_size handlers s (subscribed false tenant_id location_id) = record {
  handled = reset_handled tenant_id location_id s.log s.rows;
  there = λ id name h. reset_backoff-has_row id name tenant_id location_id s.rows ∙ h;
}

history-Keeps :
    (batch_size : ℕ) (handlers : List String) (s : State) (hs : List Happening)
    → Keeps s (history batch_size handlers s hs)
unfolding history
history-Keeps batch_size handlers s [] = Keeps-refl s
history-Keeps batch_size handlers s (h ∷ hs) =
    Keeps-trans s (happen batch_size handlers s h) _ (happen-Keeps batch_size handlers s h)
      (history-Keeps batch_size handlers (happen batch_size handlers s h) hs)

history-has_row :
    (batch_size : ℕ) (handlers : List String) (s : State) (hs : List Happening) (ev : DomainEvent)
    (tenant_id location_id : Uuid) (name : String)
    → IsIn (emitted ev tenant_id location_id) hs
    → contains handlers name ≡ true
    → has_row ev.id name (history batch_size handlers s hs).rows ≡ true
unfolding history
history-has_row batch_size handlers s [] ev tenant_id location_id name m c = absurd m
history-has_row batch_size handlers s (h ∷ hs) ev tenant_id location_id name (inl e) c =
    (history-Keeps batch_size handlers _ hs).there ev.id name (
      rw (← e) (
        unfold happen in insert_dispatches-has_row ev tenant_id location_id handlers s.rows name c))
history-has_row batch_size handlers s (h ∷ hs) ev tenant_id location_id name (inr m) c =
    history-has_row batch_size handlers (happen batch_size handlers s h) hs ev tenant_id location_id
      name m c

abbrev pub no_events : State
no_events = record { rows = []; log = [] }

-- No event is lost: after any happenings, with handlers that fail and database calls that fail, each
-- event that was stored has a row for each handler, and a row is marked as dispatched only where its
-- handler handled the event without an error.
pub history-AreHandled :
    (batch_size : ℕ) (handlers : List String) (hs : List Happening)
    → let s = history batch_size handlers no_events hs in
      AreHandled s.log s.rows
      × ((ev : DomainEvent) (tenant_id location_id : Uuid) (name : String)
          → IsIn (emitted ev tenant_id location_id) hs
          → contains handlers name ≡ true
          → has_row ev.id name s.rows ≡ true)
history-AreHandled batch_size handlers hs = (
  (history-Keeps batch_size handlers no_events hs).handled tt,
  λ ev t l name. history-has_row batch_size handlers no_events hs ev t l name,
)
