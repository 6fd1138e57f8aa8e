-- ===== src/Dispatch/Examples.antt =====
-- backend/internal/dispatch: one event, whose handler fails once.
use posserver.Prelude.{
  IsIn, ℕ, ◌+◌, ◌*◌, ◌/◌, ◌^◌, ◌≤◌, ◌<◌, min, String, ◌≡◌, refl, true, false, List, [], ◌∷◌, arith,
  contains,
}
use posserver.Order.Types.{Time, Uuid}
use posserver.Order.Aggregate.{DomainEvent, order_received, snapshot}
use posserver.Order.Examples.{made}
use posserver.Dispatch.Backoff.{backoff_delay, backoff_delay_bounds, base_of, cap_of}
use posserver.Dispatch.Outbox.{Row, new_row, pending_events, has_row}
use posserver.Dispatch.Dispatcher.{
  Answer, handled, failed, State, Happening, emitted, ticked, subscribed, dispatch_one, happen,
  history,
}
use posserver.Dispatch.Rests.{LacksRow, IsBack, dispatch_one-handled}
use posserver.Dispatch.Waits.{nominal_delay, dispatch_one-failed}
use posserver.Dispatch.Marks.{AreHandled}
use posserver.Dispatch.Logged.{no_events, history-AreHandled}

abbrev event : DomainEvent
event = record {
  id = "ev";
  aggregate_id = "o";
  payload = order_received (snapshot made);
  occurred_at = 5;
  schema_version = 1;
}

abbrev zero_rand : ℕ → ℕ
zero_rand n = 0

zero_rand-lt : (n : ℕ) → 0 < n → zero_rand n < n
zero_rand-lt n h = h

abbrev fails : Answer
fails = record {
  outcome = failed true "no subscribers";
  mark_fails = false;
  now = 100;
  rand_n = zero_rand;
}

abbrev works : Answer
works = record { outcome = handled; mark_fails = false; now = 100; rand_n = zero_rand }

abbrev row : Row
row = new_row event "t" "l" "sse"

abbrev stored : State
stored = record { rows = row ∷ []; log = [] }

abbrev happenings : List Happening
happenings =
    emitted event "t" "l"
    ∷ ticked (λ (name : String). record { query_fails = false; now = 50; answer = λ id. fails })
    ∷ subscribed false "t" "l"
    ∷ ticked (λ (name : String). record { query_fails = false; now = 60; answer = λ id. works })
    ∷ []

backoff_delay_bounds_example :
    let d = min (cap_of false) (base_of false * 2 ^ 31) in
    let delay = backoff_delay 31 false zero_rand in (d / 2 ≤ delay) × (delay ≤ d) × (0 < delay)
backoff_delay_bounds_example = backoff_delay_bounds 31 false zero_rand zero_rand-lt

-- The same event is stored again, and a handler that fails has its turn after a reset.
abbrev afterwards : List Happening
afterwards =
    emitted event "t" "l"
    ∷ subscribed false "t" "l"
    ∷ ticked (λ (name : String). record { query_fails = false; now = 500; answer = λ id. fails })
    ∷ []

dispatch_one-handled_example : LacksRow "ev" "sse" (
    pending_events 1000 "sse" 50
      (history 50 ("sse" ∷ []) (dispatch_one "sse" row works stored) afterwards).rows)
unfolding has_row
dispatch_one-handled_example =
    dispatch_one-handled "sse" row works stored 50 ("sse" ∷ []) afterwards 1000 50 refl refl refl

-- An agent of another store subscribes, and the handler has a turn, before half of the back-off is over.
abbrev meanwhile : List Happening
meanwhile =
    emitted event "t" "l"
    ∷ subscribed false "t" "m"
    ∷ ticked (λ (name : String). record { query_fails = false; now = 101; answer = λ id. works })
    ∷ []

dispatch_one-failed_example :
    let d = nominal_delay true 0 in
    let later = history 50 ("sse" ∷ []) (dispatch_one "sse" row fails stored) meanwhile in
    let woken = happen 50 ("sse" ∷ []) later (subscribed false "t" "l") in
    ((t : Time) → t < 100 + d / 2 → LacksRow "ev" "sse" (pending_events t "sse" 50 later.rows))
    × ((t : Time) → 100 + d ≤ t → IsBack t "ev" "sse" later.rows)
    × ((t : Time) → IsBack t "ev" "sse" woken.rows)
unfolding has_row
dispatch_one-failed_example =
    dispatch_one-failed "sse" row fails stored true "no subscribers" 50 ("sse" ∷ []) meanwhile 50
      refl (λ i. (refl, refl), tt) refl refl zero_rand-lt (tt, (refl, (omega arith, tt)))

history-AreHandled_example :
    let s = history 50 ("sse" ∷ []) no_events happenings in
    AreHandled s.log s.rows
    × ((ev : DomainEvent) (tenant_id location_id : Uuid) (name : String)
        → IsIn (emitted ev tenant_id location_id) happenings
        → contains ("sse" ∷ []) name ≡ true
        → has_row ev.id name s.rows ≡ true)
history-AreHandled_example = history-AreHandled 50 ("sse" ∷ []) happenings

logged : (history 50 ("sse" ∷ []) no_events happenings).log ≡ ("sse", "ev") ∷ []
unfolding history pending_events backoff_delay has_row
logged = refl
