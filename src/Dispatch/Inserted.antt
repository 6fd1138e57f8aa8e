-- ===== src/Dispatch/Inserted.antt =====
-- backend/internal/infra/database/repositories/order_repo.go: what the insertion of an event's rows keeps.
use posserver.Prelude.{
  All-append, String, ◌≡◌, refl, ap, inl, inr, true, ◌||◌, List, [], ◌∷◌, ◌++◌, arith,
  if◌then◌else◌, Bool-cases, str_eq, str_eq_iff, str_eq_refl, contains,
}
use posserver.Order.Types.{Uuid}
use posserver.Order.Aggregate.{DomainEvent}
use posserver.Dispatch.Outbox.{new_row, Row, has_row, insert_dispatches}
use posserver.Dispatch.Marks.{AreHandled}

pub has_row-append :
    (id name : String) (rows more : List Row)
    → has_row id name (rows ++ more) ≡ (has_row id name rows || has_row id name more)
unfolding has_row
has_row-append id name [] more = refl
has_row-append id name (r ∷ rs) more = ground (arith, has_row-append id name rs more)

-- An insertion leaves the rows that are there, and adds rows that wait.
pub record Inserts (rows rows' : List Row) : Type 0 where
  pub handled : (log : List (String × Uuid)) → AreHandled log rows → AreHandled log rows'
  pub there : (id name : String) → has_row id name rows ≡ true → has_row id name rows' ≡ true

Inserts-trans : (r s t : List Row) → Inserts r s → Inserts s t → Inserts r t
Inserts-trans r s t k l = record {
  handled = λ log h. l.handled log (k.handled log h);
  there = λ id name h. l.there id name (k.there id name h);
}

new_row-Inserts :
    (ev : DomainEvent) (tenant_id location_id : Uuid) (name : String) (rows : List Row)
    → Inserts rows (rows ++ new_row ev tenant_id location_id name ∷ [])
new_row-Inserts ev tenant_id location_id name rows = record {
  handled = λ log h. All-append _ rows _ h (λ u. absurd (cc), tt);
  there = λ id n h.
      ground (arith, has_row-append id n rows (new_row ev tenant_id location_id name ∷ []));
}

pub insert_dispatches-Inserts :
    (ev : DomainEvent) (tenant_id location_id : Uuid) (names : List String) (rows : List Row)
    → Inserts rows (insert_dispatches ev tenant_id location_id names rows)
unfolding insert_dispatches
insert_dispatches-Inserts ev tenant_id location_id [] rows = record {
  handled = λ log h. h;
  there = λ id name h. h;
}
insert_dispatches-Inserts ev tenant_id location_id (name ∷ names) rows =
    elim (Bool-cases (has_row ev.id name rows)) [
      | inl e ↦ rw e (insert_dispatches-Inserts ev tenant_id location_id names rows)
      | inr e ↦ rw e (
          Inserts-trans rows _ _ (new_row-Inserts ev tenant_id location_id name rows)
            (insert_dispatches-Inserts ev tenant_id location_id names _))
    ]

pub insert_dispatches-has_row :
    (ev : DomainEvent) (tenant_id location_id : Uuid) (names : List String) (rows : List Row)
    (name : String)
    → contains names name ≡ true
    → has_row ev.id name (insert_dispatches ev tenant_id location_id names rows) ≡ true
unfolding insert_dispatches contains has_row
insert_dispatches-has_row ev tenant_id location_id [] rows name c = absurd (cc)
insert_dispatches-has_row ev tenant_id location_id (n ∷ names) rows name c =
    let rows' =
      if has_row ev.id n rows then rows else rows ++ new_row ev tenant_id location_id n ∷ [] in
    elim (Bool-cases (str_eq n name)) [
      | inl e ↦ (insert_dispatches-Inserts ev tenant_id location_id names rows').there ev.id name (
          ground (
            arith,
            has_row-append ev.id name rows (new_row ev tenant_id location_id n ∷ []),
            str_eq_refl ev.id,
            ap (λ (t : String). has_row ev.id t rows) ((str_eq_iff n name).0 e),
          ))
      | inr e ↦ insert_dispatches-has_row ev tenant_id location_id names rows' name (ground arith)
    ]
