-- ===== src/Dispatch/Stays.antt =====
-- backend/internal/dispatch: the calls that are about other rows leave the rows of an event for a handler.
use posserver.Prelude.{
  All, All-append, String, ◌≡◌, ◌∙◌, inl, inr, true, false, ◌&&◌, none, List, [], ◌∷◌, ◌++◌, arith,
  if◌then◌else◌, Bool-cases, str_eq, str_eq_iff,
}
use posserver.Order.Types.{Time, Uuid}
use posserver.Order.Aggregate.{DomainEvent}
use posserver.Dispatch.Outbox.{
  Row, new_row, is_row, is_unset, has_row, insert_dispatches, mark_dispatched, mark_failed,
  reset_backoff,
}
use posserver.Dispatch.Dispatcher.{
  Answer, Outcome, handled, failed, State, route, dispatch_one, dispatch_batch,
}
use posserver.Dispatch.Inserted.{has_row-append}
use posserver.Dispatch.Marks.{mark_dispatched-has_row, mark_failed-has_row}

-- `Q` holds of the rows of an event for a handler, and there is one.
pub record Stays (id name : String) (Q : Row → Type 0) (rows : List Row) : Type 0 where
  pub there : has_row id name rows ≡ true
  pub all : All (λ (r : Row). is_row id name r ≡ true → Q r) rows

-- The row's event is another, or the handler is.
abbrev pub IsOther : String → String → String → Row → Type 0
IsOther id name handler pe = (str_eq pe.event.id id && str_eq handler name) ≡ false

-- What `ResetBackoffForScope` makes of a row.
abbrev pub reset_row : Uuid → Uuid → Row → Row
reset_row tenant_id location_id r =
    if is_unset r.dispatched_at && str_eq r.tenant_id tenant_id && str_eq r.location_id location_id
    then record r { next_attempt_at = none }
    else r

reset_row-is_row :
    (id name tenant_id location_id : String) (r : Row)
    → is_row id name r ≡ is_row id name (reset_row tenant_id location_id r)
reset_row-is_row id name tenant_id location_id r = ground arith

not_row :
    (id name n : String) (pe r : Row)
    → IsOther id name n pe
    → is_row pe.event.id n r ≡ true
    → ¬ (is_row id name r ≡ true)
not_row id name n pe r o e i =
    ground (arith, str_eq_iff r.event.id pe.event.id, str_eq_iff r.handler_name n)

module _ (id name : String) (Q : Row → Type 0) where
  new_row-Stays :
      (ev : DomainEvent) (tenant_id location_id : Uuid) (n : String) (rows : List Row)
      → has_row ev.id n rows ≡ false
      → Stays id name Q rows
      → Stays id name Q (rows ++ new_row ev tenant_id location_id n ∷ [])
  new_row-Stays ev tenant_id location_id n rows e s = record {
    there =
        ground
          (arith, has_row-append id name rows (new_row ev tenant_id location_id n ∷ []), s.there);
    all =
        All-append _ rows _ s.all
          (λ i. absurd (ground (arith, str_eq_iff ev.id id, str_eq_iff n name, s.there)), tt);
  }

  pub insert_dispatches-Stays :
      (ev : DomainEvent) (tenant_id location_id : Uuid) (names : List String) (rows : List Row)
      → Stays id name Q rows
      → Stays id name Q (insert_dispatches ev tenant_id location_id names rows)
  unfolding insert_dispatches
  insert_dispatches-Stays ev tenant_id location_id [] rows s = s
  insert_dispatches-Stays ev tenant_id location_id (n ∷ names) rows s =
      elim (Bool-cases (has_row ev.id n rows)) [
        | inl e ↦ rw e (insert_dispatches-Stays ev tenant_id location_id names rows s)
        | inr e ↦ rw e (
            insert_dispatches-Stays ev tenant_id location_id names _
              (new_row-Stays ev tenant_id location_id n rows e s))
      ]

  module _ (now : Time) (n : String) (pe : Row) (o : IsOther id name n pe) where
    mark_dispatched-All :
        (rows : List Row)
        → All (λ (r : Row). is_row id name r ≡ true → Q r) rows
        → All (λ (r : Row). is_row id name r ≡ true → Q r) (mark_dispatched now pe.event.id n rows)
    unfolding mark_dispatched
    mark_dispatched-All [] p = tt
    mark_dispatched-All (r ∷ rs) (p, ps) = elim (Bool-cases (is_row pe.event.id n r)) [
      | inl e ↦ rw e (λ i. absurd (not_row id name n pe r o e i), mark_dispatched-All rs ps)
      | inr e ↦ rw e (p, mark_dispatched-All rs ps)
    ]

    mark_failed-All :
        (message : String) (next : Time) (rows : List Row)
        → All (λ (r : Row). is_row id name r ≡ true → Q r) rows
        → All
            (λ (r : Row). is_row id name r ≡ true → Q r)
            (mark_failed now pe.event.id n message next rows)
    unfolding mark_failed
    mark_failed-All message next [] p = tt
    mark_failed-All message next (r ∷ rs) (p, ps) = elim (Bool-cases (is_row pe.event.id n r)) [
      | inl e ↦
          rw e (λ i. absurd (not_row id name n pe r o e i), mark_failed-All message next rs ps)
      | inr e ↦ rw e (p, mark_failed-All message next rs ps)
    ]

  route-Stays :
      (n : String) (pe : Row) (a : Answer) (o : Outcome) (s : State)
      → IsOther id name n pe
      → Stays id name Q s.rows
      → Stays id name Q (route n pe a o s).rows
  unfolding route
  route-Stays n pe a handled s d h = elim (Bool-cases a.mark_fails) [
    | inl f ↦ rw f h
    | inr f ↦ rw f (record {
      there = mark_dispatched-has_row a.now id name pe.event.id n s.rows ∙ h.there;
      all = mark_dispatched-All a.now n pe d s.rows h.all;
    })
  ]
  route-Stays n pe a (failed transient message) s d h = elim (Bool-cases a.mark_fails) [
    | inl f ↦ rw f h
    | inr f ↦ rw f (record {
      there = mark_failed-has_row a.now id name pe.event.id n message _ s.rows ∙ h.there;
      all = mark_failed-All a.now n pe d message _ s.rows h.all;
    })
  ]

  pub dispatch_batch-Stays :
      (n : String) (answer : Uuid → Answer) (batch : List Row) (s : State)
      → All (IsOther id name n) batch
      → Stays id name Q s.rows
      → Stays id name Q (dispatch_batch n answer batch s).rows
  unfolding dispatch_batch dispatch_one
  dispatch_batch-Stays n answer [] s d h = h
  dispatch_batch-Stays n answer (pe ∷ batch) s (d, ds) h =
      let a = answer pe.event.id in
      dispatch_batch-Stays n answer batch _ ds (route-Stays n pe a a.outcome s d h)

  pub reset_backoff-All :
      (tenant_id location_id : String) (rows : List Row)
      → ((r : Row) → Q r → Q (reset_row tenant_id location_id r))
      → All (λ (r : Row). is_row id name r ≡ true → Q r) rows
      → All (λ (r : Row). is_row id name r ≡ true → Q r) (reset_backoff tenant_id location_id rows)
  unfolding reset_backoff
  reset_backoff-All tenant_id location_id [] f p = tt
  reset_backoff-All tenant_id location_id (r ∷ rs) f (p, ps) = (
    λ i. f r (p (reset_row-is_row id name tenant_id location_id r ∙ i)),
    reset_backoff-All tenant_id location_id rs f ps,
  )
