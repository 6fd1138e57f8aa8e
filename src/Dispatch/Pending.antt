-- ===== src/Dispatch/Pending.antt =====
-- backend/internal/infra/database/repositories/outbox_repo.go, `PendingEventsForHandler`: what holds
-- of each row that is found.
use posserver.Prelude.{
  All, ℕ, zero, suc, String, ◌≡◌, inl, inr, true, List, [], ◌∷◌, Bool-cases, take,
}
use posserver.Prelude.Sort.{sort_stable-All}
use posserver.Order.Types.{Time}
use posserver.Dispatch.Outbox.{Row, is_pending, pending_rows, row_before, pending_events}

take-All : (P : Row → Type 0) (n : ℕ) (rows : List Row) → All P rows → All P (take n rows)
take-All P zero rows p = tt
take-All P (suc n) [] p = tt
take-All P (suc n) (r ∷ rs) (p, ps) = (p, take-All P n rs ps)

module _ (Q : Row → Type 0) (t : Time) (name : String) where
  pending_rows-All :
      (rows : List Row)
      → All (λ (r : Row). is_pending t name r ≡ true → Q r) rows
      → All Q (pending_rows t name rows)
  unfolding pending_rows
  pending_rows-All [] p = tt
  pending_rows-All (r ∷ rs) (p, ps) = elim (Bool-cases (is_pending t name r)) [
    | inl h ↦ rw h (p h, pending_rows-All rs ps)
    | inr h ↦ rw h (pending_rows-All rs ps)
  ]

  pub pending_events-All :
      (limit : ℕ) (rows : List Row)
      → All (λ (r : Row). is_pending t name r ≡ true → Q r) rows
      → All Q (pending_events t name limit rows)
  unfolding pending_events
  pending_events-All limit rows p =
      take-All Q limit _ (sort_stable-All Q row_before _ (pending_rows-All rows p))
