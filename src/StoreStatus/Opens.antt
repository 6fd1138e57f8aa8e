-- ===== src/StoreStatus/Opens.antt =====
-- backend/internal/domain/storestatus/status.go: what the schedule answers about now and later.
use posserver.Prelude.{
  IsIn, ◌≤◌, ◌<◌, ◌≡◌, refl, sym, inl, inr, true, false, ◌&&◌, Option, none, some, List, [], ◌∷◌,
  arith, ltb, leb, if◌then◌else◌, Bool-cases,
}
use posserver.Order.Types.{Time}
use posserver.StoreStatus.Schedule.{
  any_hours, is_none, Schedule, Period, periods_around, holds, holding, current, open_at,
  first_after, next_open, extend, closes_from, closes_at,
}

holding-holds :
    (ps : List Period) (t : Time) (p : Period)
    → holding ps t ≡ some p
    → (holds p t ≡ true) × IsIn p ps
unfolding holding
holding-holds [] t p h = absurd (ground (arith, h))
holding-holds (q ∷ ps) t p h = elim (Bool-cases (holds q t)) [
  | inl on ↦ (let e : q ≡ p = ground (arith, h, on) in (cc (on, e), inl (sym e)))
  | inr off ↦ (let r = holding-holds ps t p (ground (arith, h, off)) in (r.0, inr r.1))
]

-- The period that holds an instant is one around it, and does.
pub current_lem :
    (sch : Schedule) (t : Time) (p : Period)
    → current sch t ≡ some p
    → (holds p t ≡ true) × IsIn p (periods_around sch t 0)
unfolding current
current_lem sch t p h = holding-holds (periods_around sch t 0) t p h

first_after-lt : (ps : List Period) (t u : Time) → first_after ps t ≡ some u → t < u
unfolding first_after
first_after-lt [] t u h = absurd (ground (arith, h))
first_after-lt (p ∷ ps) t u h = ground (arith, h, first_after-lt ps t u)

-- The next opening is now where the store is open, and later where it is not.
pub next_open_lem :
    (sch : Schedule) (t u : Time)
    → next_open sch t ≡ some u
    → (t ≤ u) × (open_at sch t ≡ false → t < u)
unfolding next_open
next_open_lem sch t u h = elim (Bool-cases (open_at sch t)) [
  | inl on ↦
      (let e : t ≡ u = ground (arith, h, on) in (ground (arith, e), λ off. ground (arith, on, off)))
  | inr off ↦
      (let lt = first_after-lt (periods_around sch t 14) t u (ground (arith, h, off)) in
        (omega (arith, lt), λ o. lt))
]

extend-le : (ps : List Period) (end : Time) → end ≤ extend ps end
unfolding extend
extend-le [] end = omega arith
extend-le (p ∷ ps) end =
    ground (arith, extend-le ps (if leb p.start end && ltb end p.end then p.end else end))

closes_from-lt :
    (sch : Schedule) (p : Option Period) (t u : Time)
    → ((q : Period) → p ≡ some q → holds q t ≡ true)
    → closes_from sch p ≡ some u
    → t < u
closes_from-lt sch none t u f h = absurd (ground (arith, h))
closes_from-lt sch (some p) t u f h =
    ground (arith, h, f p refl, extend-le (periods_around sch p.end 1) p.end)

-- A store closes after now.
pub closes_at-lt : (sch : Schedule) (t u : Time) → closes_at sch t ≡ some u → t < u
unfolding closes_at
closes_at-lt sch t u h = closes_from-lt sch (current sch t) t u (λ q e. (current_lem sch t q e).0) h

closes_from-some :
    (sch : Schedule) (p : Option Period)
    → is_none p ≡ false
    → any_hours sch.weekly ≡ true
    → (u : Time) × (closes_from sch p ≡ some u)
closes_from-some sch none o h = absurd (ground (arith, o))
closes_from-some sch (some p) o h = (extend (periods_around sch p.end 1) p.end, rw h refl)

-- An open store with hours has a closing time.
pub closes_at-some :
    (sch : Schedule) (t : Time)
    → open_at sch t ≡ true
    → any_hours sch.weekly ≡ true
    → (u : Time) × (closes_at sch t ≡ some u)
unfolding closes_at
closes_at-some sch t o h = closes_from-some sch (current sch t) (ground (arith, o)) h
