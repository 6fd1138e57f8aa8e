-- ===== src/Dispatch/Waits.antt =====
-- backend/internal/dispatch/dispatcher.go, `dispatchOne`: when an event whose handler failed is handed
-- to it again, while other things happen to the outbox.
use posserver.Prelude.{
  All, All-weaken, ℕ, ◌+◌, ◌*◌, ◌/◌, ◌^◌, ◌≤◌, ◌<◌, min, String, ◌≡◌, ◌∙◌, inl, inr, Bool, true,
  false, ◌&&◌, Option, none, some, List, [], ◌∷◌, arith, leb, Bool-cases, str_eq, str_eq_iff,
}
use posserver.Order.Types.{Time, Uuid}
use posserver.Dispatch.Backoff.{backoff_delay, backoff_delay_bounds, base_of, cap_of}
use posserver.Dispatch.Outbox.{
  Row, is_row, is_due_at, has_row, is_pending, pending_events, mark_failed, reset_backoff,
}
use posserver.Dispatch.Dispatcher.{
  Answer, failed, State, Happening, emitted, ticked, subscribed, route, dispatch_one, happen,
  history,
}
use posserver.Dispatch.Marks.{mark_failed-has_row}
use posserver.Dispatch.Stays.{Stays}
use posserver.Dispatch.Later.{Leaves, history-Stays}
use posserver.Dispatch.Rests.{LacksRow, IsBack, Stays-LacksRow}

-- The rows of the event for the handler are of the store.
abbrev pub InStore : Uuid → String → Uuid → Uuid → List Row → Type 0
InStore id name tenant_id location_id = All (λ (r : Row).
    is_row id name r ≡ true → (r.tenant_id ≡ tenant_id) × (r.location_id ≡ location_id))

-- The handler's turns come before `until`, and no reset is of the store.
abbrev pub IsQuiet : String → Uuid → Uuid → Time → Happening → Type 0
IsQuiet name tenant_id location_id until (emitted ev t l) = Unit
IsQuiet name tenant_id location_id until (ticked turn) = (turn name).now < until
IsQuiet name tenant_id location_id until (subscribed true t l) = Unit
IsQuiet name tenant_id location_id until (subscribed false t l) =
    (str_eq tenant_id t && str_eq location_id l) ≡ false

-- Of the store, and due from a time in the span on.
abbrev is_within : Time → Time → Option Time → Bool
is_within from until none = false
is_within from until (some t) = leb from t && leb t until

abbrev Waits : Uuid → Uuid → Time → Time → Row → Type 0
Waits tenant_id location_id from until r =
    (r.tenant_id ≡ tenant_id)
    × (r.location_id ≡ location_id)
    × (is_within from until r.next_attempt_at ≡ true)

is_within-due :
    (from until t : Time) (next : Option Time)
    → is_within from until next ≡ true
    → (t < from → is_due_at t next ≡ false) × (until ≤ t → is_due_at t next ≡ true)
is_within-due from until t none h = absurd (cc)
is_within-due from until t (some n) h = ground arith

module _ (id name : String) (tenant_id location_id : Uuid) (from until : Time) where
  Waits-rests :
      (r : Row) (t : Time)
      → t < from
      → Waits tenant_id location_id from until r
      → is_pending t name r ≡ false
  Waits-rests r t l w = ground (arith, is_within-due from until t r.next_attempt_at w.2)

  Waits-Leaves :
      (h : Happening)
      → IsQuiet name tenant_id location_id from h
      → Leaves id name
          (Waits tenant_id location_id from until)
          (λ (t : Time). t < from)
          Waits-rests
          h
  Waits-Leaves (emitted ev t l) q = tt
  Waits-Leaves (ticked turn) q = q
  Waits-Leaves (subscribed true t l) q = tt
  Waits-Leaves (subscribed false t l) q = λ r w. ground (arith, w)

  mark_failed-Waits :
      (now : Time) (message : String) (next : Time) (rows : List Row)
      → 0 < next
      → from ≤ next
      → next ≤ until
      → InStore id name tenant_id location_id rows
      → All
          (λ (r : Row). is_row id name r ≡ true → Waits tenant_id location_id from until r)
          (mark_failed now id name message next rows)
  unfolding mark_failed
  mark_failed-Waits now message next [] z f u p = tt
  mark_failed-Waits now message next (r ∷ rs) z f u (p, ps) = elim (Bool-cases (is_row id name r)) [
    | inl e ↦
        rw e (λ i. ((p e).0, (p e).1, ground arith), mark_failed-Waits now message next rs z f u ps)
    | inr e ↦ rw e (λ i. absurd (cc), mark_failed-Waits now message next rs z f u ps)
  ]

  Waits-IsBack :
      (t : Time) (rows : List Row)
      → until ≤ t
      → All (λ (r : Row). is_row id name r ≡ true → Waits tenant_id location_id from until r) rows
      → IsBack t id name rows
  Waits-IsBack t rows l =
      All-weaken _ _ rows
        (λ (r : Row) h i u. ground (arith, is_within-due from until t r.next_attempt_at (h i).2))

  reset_backoff-IsBack :
      (t : Time) (rows : List Row)
      → All (λ (r : Row). is_row id name r ≡ true → Waits tenant_id location_id from until r) rows
      → IsBack t id name (reset_backoff tenant_id location_id rows)
  unfolding reset_backoff
  reset_backoff-IsBack t [] p = tt
  reset_backoff-IsBack t (r ∷ rs) (p, ps) = (
    λ i u.
        ground (arith, p, str_eq_iff r.tenant_id tenant_id, str_eq_iff r.location_id location_id),
    reset_backoff-IsBack t rs ps,
  )

-- The exponential back-off before jitter.
abbrev pub nominal_delay : Bool → ℕ → ℕ
nominal_delay transient attempts = min (cap_of transient) (base_of transient * 2 ^ attempts)

history-Waits :
    (name : String) (pe : Row) (a : Answer) (s : State) (transient : Bool) (message : String)
    (batch_size : ℕ) (handlers : List String) (hs : List Happening)
    → has_row pe.event.id name s.rows ≡ true
    → InStore pe.event.id name pe.tenant_id pe.location_id s.rows
    → a.outcome ≡ failed transient message
    → a.mark_fails ≡ false
    → ((n : ℕ) → 0 < n → a.rand_n n < n)
    → All
        (IsQuiet name pe.tenant_id pe.location_id (a.now + nominal_delay transient pe.attempts / 2))
        hs
    → let d = nominal_delay transient pe.attempts in
      Stays pe.event.id name
        (Waits pe.tenant_id pe.location_id (a.now + d / 2) (a.now + d))
        (history batch_size handlers (dispatch_one name pe a s) hs).rows
unfolding dispatch_one route
history-Waits name pe a s transient message batch_size handlers hs h i o m r q =
    let id = pe.event.id in
    let d = nominal_delay transient pe.attempts in
    let delay = backoff_delay pe.attempts transient a.rand_n in
    let b = backoff_delay_bounds pe.attempts transient a.rand_n r in
    history-Stays id name _ _
      (Waits-rests id name pe.tenant_id pe.location_id (a.now + d / 2) (a.now + d)) batch_size
      handlers (dispatch_one name pe a s) hs
      (All-weaken _ _ hs
        (λ (x : Happening).
          Waits-Leaves id name pe.tenant_id pe.location_id (a.now + d / 2) (a.now + d) x)
        q)
      (rw (o, m)
        (record {
          there = mark_failed-has_row a.now id name id name message (a.now + delay) s.rows ∙ h;
          all =
              mark_failed-Waits id name pe.tenant_id pe.location_id (a.now + d / 2) (a.now + d)
                a.now message (a.now + delay) s.rows (omega (arith, b.2)) (omega (arith, b.0))
                (omega (arith, b.1)) i;
        }))

-- An event whose handler failed, the failure's mark stored, rests, whatever happens after that
-- (events stored, ticks, subscriptions; not an administrator's deletions), as long as the handler's
-- turns come before half of the back-off is over and no subscription resets the event's store:
-- until then no query finds it for the handler, and from the whole back-off on it is due, unless it
-- is marked as dispatched. A subscription that resets its store makes it due at once. The outbox
-- has the event's row, which is of the event's store, and `randN(n)` is below `n`.
pub dispatch_one-failed :
    (name : String) (pe : Row) (a : Answer) (s : State) (transient : Bool) (message : String)
    (batch_size : ℕ) (handlers : List String) (hs : List Happening) (limit : ℕ)
    → has_row pe.event.id name s.rows ≡ true
    → InStore pe.event.id name pe.tenant_id pe.location_id s.rows
    → a.outcome ≡ failed transient message
    → a.mark_fails ≡ false
    → ((n : ℕ) → 0 < n → a.rand_n n < n)
    → All
        (IsQuiet name pe.tenant_id pe.location_id (a.now + nominal_delay transient pe.attempts / 2))
        hs
    → let d = nominal_delay transient pe.attempts in
      let later = history batch_size handlers (dispatch_one name pe a s) hs in
      let woken = happen batch_size handlers later (subscribed false pe.tenant_id pe.location_id) in
      ((t : Time)
        → t < a.now + d / 2
        → LacksRow pe.event.id name (pending_events t name limit later.rows))
      × ((t : Time) → a.now + d ≤ t → IsBack t pe.event.id name later.rows)
      × ((t : Time) → IsBack t pe.event.id name woken.rows)
dispatch_one-failed name pe a s transient message batch_size handlers hs limit h i o m r q =
    let d = nominal_delay transient pe.attempts in
    let stays = history-Waits name pe a s transient message batch_size handlers hs h i o m r q in
    (
      λ t l.
          Stays-LacksRow pe.event.id name _ t limit _
            (λ row w.
              Waits-rests pe.event.id name pe.tenant_id pe.location_id (a.now + d / 2) (a.now + d)
                row t l w)
            stays,
      λ t l.
          Waits-IsBack pe.event.id name pe.tenant_id pe.location_id (a.now + d / 2) (a.now + d) t _
            l stays.all,
      λ t.
          unfold happen in
          reset_backoff-IsBack pe.event.id name pe.tenant_id pe.location_id (a.now + d / 2)
            (a.now + d) t _ stays.all,
    )
