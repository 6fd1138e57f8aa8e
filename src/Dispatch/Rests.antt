-- ===== src/Dispatch/Rests.antt =====
-- backend/internal/dispatch/dispatcher.go, `dispatchOne`: an event that was handled, whatever happens to
-- the outbox later.
use posserver.Prelude.{
  IsIn-All, All, All-weaken, ℕ, String, ◌≡◌, refl, ◌∙◌, inl, inr, true, false, List, [], ◌∷◌, arith,
  Bool-cases,
}
use posserver.Order.Types.{Time, Uuid}
use posserver.Dispatch.Outbox.{
  Row, is_row, is_unset, has_row, is_pending, pending_events, mark_dispatched,
}
use posserver.Dispatch.Dispatcher.{
  Answer, handled, State, Happening, emitted, ticked, subscribed, route, dispatch_one, history,
}
use posserver.Dispatch.Marks.{mark_dispatched-has_row}
use posserver.Dispatch.Pending.{pending_events-All}
use posserver.Dispatch.Stays.{Stays}
use posserver.Dispatch.Later.{Leaves, history-Stays}

-- The rows of an event for a handler are not among these.
abbrev pub LacksRow : Uuid → String → List Row → Type 0
LacksRow id name = All (λ (r : Row). is_row id name r ≡ false)

-- The rows of the event that wait are pending.
abbrev pub IsBack : Time → Uuid → String → List Row → Type 0
IsBack t id name = All (λ (r : Row).
    is_row id name r ≡ true → is_unset r.dispatched_at ≡ true → is_pending t name r ≡ true)

-- Where the rows rest at `t`, no query at `t` finds them.
pub Stays-LacksRow :
    (id name : String) (Q : Row → Type 0) (t : Time) (limit : ℕ) (rows : List Row)
    → ((r : Row) → Q r → is_pending t name r ≡ false)
    → Stays id name Q rows
    → LacksRow id name (pending_events t name limit rows)
Stays-LacksRow id name Q t limit rows rests s = pending_events-All _ t name limit rows (
    All-weaken _ _ rows
      (λ (r : Row) h p. elim (Bool-cases (is_row id name r)) [
        | inl e ↦ absurd (ground (arith, rests r (h e)))
        | inr e ↦ e
      ])
      s.all)

abbrev IsDone : Row → Type 0
IsDone r = is_unset r.dispatched_at ≡ false

IsDone-rests :
    (name : String) (r : Row) (t : Time) → Unit {0} → IsDone r → is_pending t name r ≡ false
IsDone-rests name r t u d = ground arith

mark_dispatched-IsDone :
    (now : Time) (id name : String) (rows : List Row)
    → All (λ (r : Row). is_row id name r ≡ true → IsDone r) (mark_dispatched now id name rows)
unfolding mark_dispatched
mark_dispatched-IsDone now id name [] = tt
mark_dispatched-IsDone now id name (r ∷ rs) = elim (Bool-cases (is_row id name r)) [
  | inl e ↦ rw e (λ i. refl, mark_dispatched-IsDone now id name rs)
  | inr e ↦ rw e (λ i. absurd (cc), mark_dispatched-IsDone now id name rs)
]

module _ (id name : String) where
  IsDone-Leaves :
      (h : Happening) → Leaves id name IsDone (λ (u : Time). Unit {0}) (IsDone-rests name) h
  IsDone-Leaves (emitted ev tenant_id location_id) = tt
  IsDone-Leaves (ticked turn) = tt
  IsDone-Leaves (subscribed true tenant_id location_id) = tt
  IsDone-Leaves (subscribed false tenant_id location_id) = λ r d. ground arith

-- An event that was handled, its mark stored, is in no later query for its handler: whatever happens
-- after that - events stored, the same one among them, ticks with handlers and calls that fail, resets
-- of any store - and whenever the query is made, where the outbox has the event's row.
pub dispatch_one-handled :
    (name : String) (pe : Row) (a : Answer) (s : State) (batch_size : ℕ) (handlers : List String)
    (hs : List Happening) (t : Time) (limit : ℕ)
    → has_row pe.event.id name s.rows ≡ true
    → a.outcome ≡ handled
    → a.mark_fails ≡ false
    → LacksRow pe.event.id name (
        pending_events t name limit
          (history batch_size handlers (dispatch_one name pe a s) hs).rows)
unfolding dispatch_one route
dispatch_one-handled name pe a s batch_size handlers hs t limit h o m =
    let id = pe.event.id in
    Stays-LacksRow id name IsDone t limit _ (λ r d. IsDone-rests name r t tt d)
      (history-Stays id name IsDone (λ (u : Time). Unit {0}) (IsDone-rests name) batch_size handlers
        (dispatch_one name pe a s) hs (IsIn-All _ hs (λ x i. IsDone-Leaves id name x))
        (rw (o, m)
          (record {
            there = mark_dispatched-has_row a.now id name id name s.rows ∙ h;
            all = mark_dispatched-IsDone a.now id name s.rows;
          })))
