-- ===== src/Dispatch/Later.antt =====
-- backend/internal/dispatch: what happens later leaves a row that no query finds as it is.
use posserver.Prelude.{
  All, All-weaken, ℕ, String, ◌≡◌, ◌∙◌, inl, inr, true, false, ◌&&◌, List, [], ◌∷◌, arith,
  Bool-cases, str_eq, str_eq_iff,
}
use posserver.Order.Types.{Time}
use posserver.Dispatch.Outbox.{Row, is_row, is_pending, pending_events}
use posserver.Dispatch.Dispatcher.{
  State, Turn, Happening, emitted, ticked, subscribed, run_handler, tick, happen, history,
}
use posserver.Dispatch.Marks.{reset_backoff-has_row}
use posserver.Dispatch.Pending.{pending_events-All}
use posserver.Dispatch.Stays.{
  Stays, IsOther, reset_row, insert_dispatches-Stays, dispatch_batch-Stays, reset_backoff-All,
}

-- A predicate of rows under which a query at the times `T` does not find them.
module _ (id name : String) (Q : Row → Type 0) (T : Time → Type 0)
    (rests : (r : Row) (t : Time) → T t → Q r → is_pending t name r ≡ false) where
  pending_events-IsOther :
      (n : String) (t : Time) (limit : ℕ) (rows : List Row)
      → (n ≡ name → T t)
      → Stays id name Q rows
      → All (IsOther id name n) (pending_events t n limit rows)
  pending_events-IsOther n t limit rows f s = pending_events-All _ t n limit rows (
      All-weaken _ _ rows
        (λ (r : Row) h p. elim (Bool-cases (str_eq r.event.id id && str_eq n name)) [
          | inl e ↦ absurd (found r h p e)
          | inr e ↦ e
        ])
        s.all)
    where
      found :
          (r : Row)
          → (is_row id name r ≡ true → Q r)
          → is_pending t n r ≡ true
          → ¬ ((str_eq r.event.id id && str_eq n name) ≡ true)
      found r h p e =
          let same = (str_eq_iff n name).0 (ground arith) in
          ground (
            arith,
            str_eq_iff r.handler_name n,
            rests r t (f same) (h (ground (arith, str_eq_iff r.handler_name n, same))),
            same,
          )

  run_handler-Stays :
      (batch_size : ℕ) (n : String) (t : Turn) (s : State)
      → (n ≡ name → T t.now)
      → Stays id name Q s.rows
      → Stays id name Q (run_handler batch_size n t s).rows
  unfolding run_handler
  run_handler-Stays batch_size n t s f h = elim (Bool-cases t.query_fails) [
    | inl e ↦ rw e h
    | inr e ↦ rw e (
        dispatch_batch-Stays id name Q n t.answer _ s
          (pending_events-IsOther n t.now batch_size s.rows f h) h)
  ]

  tick-Stays :
      (batch_size : ℕ) (names : List String) (turn : String → Turn) (s : State)
      → T (turn name).now
      → Stays id name Q s.rows
      → Stays id name Q (tick batch_size names turn s).rows
  unfolding tick
  tick-Stays batch_size [] turn s q h = h
  tick-Stays batch_size (n ∷ names) turn s q h =
      tick-Stays batch_size names turn _ q
        (run_handler-Stays batch_size n (turn n) s (λ e. rw e q) h)

  -- The handler's own query is made at such a time, and a reset keeps the predicate.
  abbrev pub Leaves : Happening → Type 0
  Leaves (emitted ev tenant_id location_id) = Unit
  Leaves (ticked turn) = T (turn name).now
  Leaves (subscribed true tenant_id location_id) = Unit
  Leaves (subscribed false tenant_id location_id) =
      (r : Row) → Q r → Q (reset_row tenant_id location_id r)

  happen-Stays :
      (batch_size : ℕ) (handlers : List String) (s : State) (h : Happening)
      → Leaves h
      → Stays id name Q s.rows
      → Stays id name Q (happen batch_size handlers s h).rows
  unfolding happen
  happen-Stays batch_size handlers s (emitted ev tenant_id location_id) l k =
      insert_dispatches-Stays id name Q ev tenant_id location_id handlers s.rows k
  happen-Stays batch_size handlers s (ticked turn) l k = tick-Stays batch_size handlers turn s l k
  happen-Stays batch_size handlers s (subscribed true tenant_id location_id) l k = k
  happen-Stays batch_size handlers s (subscribed false tenant_id location_id) l k = record {
    there = reset_backoff-has_row id name tenant_id location_id s.rows ∙ k.there;
    all = reset_backoff-All id name Q tenant_id location_id s.rows l k.all;
  }

  pub history-Stays :
      (batch_size : ℕ) (handlers : List String) (s : State) (hs : List Happening)
      → All Leaves hs
      → Stays id name Q s.rows
      → Stays id name Q (history batch_size handlers s hs).rows
  unfolding history
  history-Stays batch_size handlers s [] l k = k
  history-Stays batch_size handlers s (h ∷ hs) (l, ls) k =
      history-Stays batch_size handlers (happen batch_size handlers s h) hs ls
        (happen-Stays batch_size handlers s h l k)
