-- ===== src/Dispatch/Marks.antt =====
-- backend/internal/infra/database/repositories/outbox_repo.go: what marks and resets keep of the rows.
use posserver.Prelude.{
  All, All-weaken, String, ◌≡◌, refl, inl, inr, Bool, true, false, ◌&&◌, ◌||◌, List, [], ◌∷◌, ◌++◌,
  arith, Bool-cases, str_eq, str_eq_iff, str_eq_refl,
}
use posserver.Order.Types.{Time, Uuid}
use posserver.Dispatch.Outbox.{
  Row, is_row, is_unset, has_row, mark_dispatched, mark_failed, reset_backoff,
}

-- The handler handled the event without an error.
unfoldable pub in_log : List (String × Uuid) → String → Uuid → Bool
in_log [] name id = false
in_log ((n, i) ∷ log) name id = (str_eq n name && str_eq i id) || in_log log name id

-- What is marked as dispatched was handled.
abbrev pub AreHandled : List (String × Uuid) → List Row → Type 0
AreHandled log =
    All
      (λ (r : Row). is_unset r.dispatched_at ≡ false → in_log log r.handler_name r.event.id ≡ true)

pub in_log-append :
    (log more : List (String × Uuid)) (name id : String)
    → in_log (log ++ more) name id ≡ (in_log log name id || in_log more name id)
unfolding in_log
in_log-append [] more name id = refl
in_log-append ((n, i) ∷ log) more name id = ground (arith, in_log-append log more name id)

pub in_log_last :
    (log : List (String × Uuid)) (name id : String) → in_log (log ++ (name, id) ∷ []) name id ≡ true
unfolding in_log
in_log_last [] name id = ground (arith, str_eq_refl name, str_eq_refl id)
in_log_last ((n, i) ∷ log) name id = ground (arith, in_log_last log name id)

pub logged_more :
    (log more : List (String × Uuid)) (rows : List Row)
    → AreHandled log rows
    → AreHandled (log ++ more) rows
logged_more log more rows =
    All-weaken _ _ rows
      (λ (r : Row) h u. ground (arith, in_log-append log more r.handler_name r.event.id, h u))

pub logged_one :
    (now : Time) (id name : String) (log : List (String × Uuid)) (rows : List Row)
    → in_log log name id ≡ true
    → AreHandled log rows
    → AreHandled log (mark_dispatched now id name rows)
unfolding mark_dispatched
logged_one now id name log [] l h = tt
logged_one now id name log (r ∷ rs) l (h, hs) = elim (Bool-cases (is_row id name r)) [
  | inl e ↦ rw e (
    λ u. ground (arith, str_eq_iff r.event.id id, str_eq_iff r.handler_name name),
    logged_one now id name log rs l hs,
  )
  | inr e ↦ rw e (h, logged_one now id name log rs l hs)
]

pub failed_one :
    (now : Time) (id name message : String) (next : Time) (log : List (String × Uuid))
    (rows : List Row)
    → AreHandled log rows
    → AreHandled log (mark_failed now id name message next rows)
unfolding mark_failed
failed_one now id name message next log [] h = tt
failed_one now id name message next log (r ∷ rs) (h, hs) = elim (Bool-cases (is_row id name r)) [
  | inl e ↦ rw e (h, failed_one now id name message next log rs hs)
  | inr e ↦ rw e (h, failed_one now id name message next log rs hs)
]

pub reset_handled :
    (tenant_id location_id : String) (log : List (String × Uuid)) (rows : List Row)
    → AreHandled log rows
    → AreHandled log (reset_backoff tenant_id location_id rows)
unfolding reset_backoff
reset_handled tenant_id location_id log [] h = tt
reset_handled tenant_id location_id log (r ∷ rs) (h, hs) =
    (ground (arith, h), reset_handled tenant_id location_id log rs hs)

pub mark_dispatched-has_row :
    (now : Time) (i n id name : String) (rows : List Row)
    → has_row i n (mark_dispatched now id name rows) ≡ has_row i n rows
unfolding mark_dispatched has_row
mark_dispatched-has_row now i n id name [] = refl
mark_dispatched-has_row now i n id name (r ∷ rs) =
    ground (arith, mark_dispatched-has_row now i n id name rs)

pub mark_failed-has_row :
    (now : Time) (i n id name message : String) (next : Time) (rows : List Row)
    → has_row i n (mark_failed now id name message next rows) ≡ has_row i n rows
unfolding mark_failed has_row
mark_failed-has_row now i n id name message next [] = refl
mark_failed-has_row now i n id name message next (r ∷ rs) =
    ground (arith, mark_failed-has_row now i n id name message next rs)

pub reset_backoff-has_row :
    (i n tenant_id location_id : String) (rows : List Row)
    → has_row i n (reset_backoff tenant_id location_id rows) ≡ has_row i n rows
unfolding reset_backoff has_row
reset_backoff-has_row i n tenant_id location_id [] = refl
reset_backoff-has_row i n tenant_id location_id (r ∷ rs) =
    ground (arith, reset_backoff-has_row i n tenant_id location_id rs)
