-- ===== src/StoreStatus/Promised.antt =====
-- backend/internal/domain/storestatus/status.go: a time that is offered can be kept.
use posserver.Prelude.{
  IsIn, All, All-append, All-weaken, ℕ, zero, suc, ◌+◌, ◌-◌, ◌*◌, ◌≤◌, refl, inl, inr, Bool, true,
  false, Option, none, some, List, [], ◌∷◌, arith, leb, leb→le, Bool-cases,
}
use posserver.Order.Types.{Time}
use posserver.StoreStatus.Hours.{Zone, minute}
use posserver.StoreStatus.Schedule.{Period}
use posserver.StoreStatus.Status.{Settings, paused}
use posserver.StoreStatus.Ceiling.{ceil_slot-le}
use posserver.StoreStatus.Slots.{
  slot, rounds, ceil_slot, slots, max_time, after_pause, period_times, all_times,
}

slots-All :
    (fuel : ℕ) (from t end : Time)
    → from ≤ t
    → All (λ (u : Time). (from ≤ u) × (u ≤ end)) (slots fuel t end)
unfolding slots
slots-All zero from t end h = tt
slots-All (suc fuel) from t end h = elim (Bool-cases (leb t end)) [
  | inl le ↦ rw le ((h, leb→le t end le), slots-All fuel from (t + slot) end (omega arith))
  | inr gt ↦ rw gt tt
]

-- A pause that holds is over by the time.
abbrev pub IsOver : Bool → Option Time → Time → Type 0
IsOver true (some u) t = u ≤ t
IsOver _ u t = Unit

-- The kitchen has its minutes after the period's opening, after now and after the pause, and the period
-- has not ended.
pub record IsPromised (now : Time) (st : Settings) (eta_minutes : ℕ) (ps : List Period) (t : Time)
    : Type 0 where
  pub period : Period
  pub listed : IsIn period ps
  pub opened : period.start + eta_minutes * minute ≤ t
  pub cooked : now + eta_minutes * minute ≤ t
  pub over : IsOver (paused st now) st.paused_until (t - eta_minutes * minute)
  pub ends : t ≤ period.end

after_pause-le : (b : Bool) (u : Option Time) (from : Time) → from ≤ after_pause b u from
after_pause-le true none from = omega arith
after_pause-le true (some u) from = ground arith
after_pause-le false u from = omega arith

after_pause-IsOver :
    (b : Bool) (u : Option Time) (from t : Time) → after_pause b u from ≤ t → IsOver b u t
after_pause-IsOver true none from t h = tt
after_pause-IsOver true (some u) from t h = ground (arith, h)
after_pause-IsOver false u from t h = tt

period_times-IsPromised :
    (z : Zone) (now : Time) (st : Settings) (eta_minutes : ℕ) (p : Period) (ps : List Period)
    → IsIn p ps
    → All (IsPromised now st eta_minutes ps) (period_times z now st eta_minutes p)
unfolding period_times
period_times-IsPromised z now st eta_minutes p ps m =
    let from = after_pause (paused st now) st.paused_until (max_time p.start now) in
    let t = ceil_slot z (from + eta_minutes * minute) in
    All-weaken _ _ (slots (rounds t p.end) t p.end)
      (λ u b. record {
        period = p;
        listed = m;
        opened =
            ground
              (arith, b.0, after_pause-le (paused st now) st.paused_until (max_time p.start now));
        cooked =
            ground
              (arith, b.0, after_pause-le (paused st now) st.paused_until (max_time p.start now));
        over =
            after_pause-IsOver (paused st now) st.paused_until (max_time p.start now) _
              (omega (arith, b.0));
        ends = b.1;
      })
      (slots-All (rounds t p.end) (from + eta_minutes * minute) t p.end
        (ceil_slot-le z (from + eta_minutes * minute)))

pub all_times-IsPromised :
    (z : Zone) (now : Time) (st : Settings) (eta_minutes : ℕ) (qs ps : List Period)
    → ((p : Period) → IsIn p qs → IsIn p ps)
    → All (IsPromised now st eta_minutes ps) (all_times z now st eta_minutes qs)
unfolding all_times
all_times-IsPromised z now st eta_minutes [] ps f = tt
all_times-IsPromised z now st eta_minutes (q ∷ qs) ps f =
    All-append _ (period_times z now st eta_minutes q) _
      (period_times-IsPromised z now st eta_minutes q ps (f q (inl refl)))
      (all_times-IsPromised z now st eta_minutes qs ps (λ p m. f p (inr m)))
