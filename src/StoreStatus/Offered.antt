-- ===== src/StoreStatus/Offered.antt =====
-- backend/internal/domain/storestatus/status.go: the times that `Times` offers.
use posserver.Prelude.{
  IsIn, All, ℕ, zero, suc, ◌+◌, ◌*◌, ◌≤◌, ◌<◌, String, ◌≡◌, refl, inl, inr, Bool, true, false, ◌&&◌,
  ◌||◌, Option, none, some, List, [], ◌∷◌, ◌++◌, arith, ltb, leb, if◌then◌else◌, Bool-cases,
}
use posserver.Prelude.Int.{pos_part}
use mathlib.Core.Path.{subst}
use posserver.Order.Types.{Time}
use posserver.StoreStatus.Hours.{Zone, minute}
use posserver.StoreStatus.Schedule.{Schedule, Period, is_none, periods}
use posserver.StoreStatus.Status.{Settings, paused, eta, enabled}
use posserver.StoreStatus.Promised.{IsPromised, all_times-IsPromised}
use posserver.StoreStatus.Slots.{
  slot, rounds, ceil_slot, slots, ready, period_times, all_times, times_of, times_on, times,
}

IsIn-left : {A : Type 0} (x : A) (xs ys : List A) → IsIn x xs → IsIn x (xs ++ ys)
IsIn-left x [] ys m = absurd m
IsIn-left x (y ∷ xs) ys (inl e) = inl e
IsIn-left x (y ∷ xs) ys (inr m) = inr (IsIn-left x xs ys m)

IsIn-right : {A : Type 0} (x : A) (xs ys : List A) → IsIn x ys → IsIn x (xs ++ ys)
IsIn-right x [] ys m = m
IsIn-right x (y ∷ xs) ys m = inr (IsIn-right x xs ys m)

-- The loop leaves out no slot up to the end.
slots-IsIn :
    (fuel : ℕ) (t end : Time) (k : ℕ)
    → k < fuel
    → t + k * slot ≤ end
    → IsIn (t + k * slot) (slots fuel t end)
unfolding slots
slots-IsIn zero t end k f h = absurd (omega arith)
slots-IsIn (suc fuel) t end zero f h =
    let le : leb t end ≡ true = ground arith in rw le (inl (omega arith))
slots-IsIn (suc fuel) t end (suc k) f h =
    let le : leb t end ≡ true = ground arith in
    rw le (
      inr (
        subst (λ u. IsIn u (slots fuel (t + slot) end)) (omega arith)
          (slots-IsIn fuel (t + slot) end k (omega arith) (omega arith))))

-- The slots of a period, from the first that the kitchen can make.
abbrev pub nth_slot : Zone → Time → Settings → ℕ → Period → ℕ → Time
nth_slot z now st eta_minutes p k = ceil_slot z (ready now st p + eta_minutes * minute) + k * slot

period_times-IsIn :
    (z : Zone) (now : Time) (st : Settings) (eta_minutes : ℕ) (p : Period) (k : ℕ)
    → nth_slot z now st eta_minutes p k ≤ p.end
    → IsIn (nth_slot z now st eta_minutes p k) (period_times z now st eta_minutes p)
unfolding period_times
period_times-IsIn z now st eta_minutes p k h =
    let t = ceil_slot z (ready now st p + eta_minutes * minute) in
    slots-IsIn (rounds t p.end) t p.end k (omega (arith, h)) h

all_times-IsIn :
    (z : Zone) (now : Time) (st : Settings) (eta_minutes : ℕ) (p : Period) (u : Time)
    (ps : List Period)
    → IsIn p ps
    → IsIn u (period_times z now st eta_minutes p)
    → IsIn u (all_times z now st eta_minutes ps)
unfolding all_times
all_times-IsIn z now st eta_minutes p u [] m n = absurd m
all_times-IsIn z now st eta_minutes p u (q ∷ ps) (inl e) n =
    IsIn-left u _ _ (subst (λ x. IsIn u (period_times z now st eta_minutes x)) e n)
all_times-IsIn z now st eta_minutes p u (q ∷ ps) (inr m) n =
    IsIn-right u (period_times z now st eta_minutes q) _
      (all_times-IsIn z now st eta_minutes p u ps m n)

-- What a request for times asked for, and got.
pub record IsOffer (now : Time) (sch : Schedule) (st : Settings) (kind date : String)
    (ts : List Time) : Type 0 where
  pub day : ℕ
  pub dated : sch.zone.parse_date date ≡ some day
  pub offered : enabled st kind ≡ true
  pub from_today : sch.zone.at (sch.zone.day_of now) 0 ≤ sch.zone.at day 0
  pub to_limit : sch.zone.at day 0 ≤ sch.zone.at (sch.zone.day_of now + pos_part st.schedule_days) 0
  pub promised : All (IsPromised now st (pos_part (eta st kind)) (periods sch day)) ts
  pub complete :
      (paused st now && is_none st.paused_until) ≡ false
      → (p : Period) → IsIn p (periods sch day)
      → (k : ℕ) → nth_slot sch.zone now st (pos_part (eta st kind)) p k ≤ p.end
      → IsIn (nth_slot sch.zone now st (pos_part (eta st kind)) p k) ts

list_of : {ts us : List Time} → times_of ts ≡ times_of us → ts ≡ us
list_of h = ground (arith, h)

-- What the times of a date are, where it can be scheduled.
on_day :
    (now : Time) (sch : Schedule) (st : Settings) (eta_minutes day : ℕ) (ts : List Time)
    → times_on now sch st eta_minutes (some day) ≡ times_of ts
    → (sch.zone.at (sch.zone.day_of now) 0 ≤ sch.zone.at day 0)
      × (sch.zone.at day 0 ≤ sch.zone.at (sch.zone.day_of now + pos_part st.schedule_days) 0)
      × ((if paused st now && is_none st.paused_until
            then []
            else all_times sch.zone now st eta_minutes (periods sch day))
          ≡ ts)
unfolding times_on
on_day now sch st eta_minutes day ts h =
    let today = sch.zone.day_of now in
    let off =
      ltb (sch.zone.at day 0) (sch.zone.at today 0)
      || ltb (sch.zone.at (today + pos_part st.schedule_days) 0) (sch.zone.at day 0) in
    let rests = paused st now && is_none st.paused_until in
    elim (Bool-cases off) [
      | inl bad ↦ absurd (ground (arith, h, bad))
      | inr good ↦ (
        ground (arith, good),
        ground (arith, good),
        elim (Bool-cases rests) [
          | inl q ↦ rw q (list_of (ground (arith, h, good, q)))
          | inr n ↦ rw n (list_of (ground (arith, h, good, n)))
        ],
      )
    ]

module _ (now : Time) (sch : Schedule) (st : Settings) (eta_minutes day : ℕ) where
  kept :
      (rests : Bool)
      → All
          (IsPromised now st eta_minutes (periods sch day))
          (if rests then [] else all_times sch.zone now st eta_minutes (periods sch day))
  kept true = tt
  kept false =
      all_times-IsPromised sch.zone now st eta_minutes (periods sch day) (periods sch day)
        (λ p m. m)

  found :
      (rests : Bool)
      → rests ≡ false
      → (p : Period) → IsIn p (periods sch day)
      → (k : ℕ) → nth_slot sch.zone now st eta_minutes p k ≤ p.end
      → IsIn
          (nth_slot sch.zone now st eta_minutes p k)
          (if rests then [] else all_times sch.zone now st eta_minutes (periods sch day))
  found true n p m k h = absurd (ground (arith, n))
  found false n p m k h =
      all_times-IsIn sch.zone now st eta_minutes p _ (periods sch day) m
        (period_times-IsIn sch.zone now st eta_minutes p k h)

asked :
    (now : Time) (sch : Schedule) (st : Settings) (kind date : String) (d : Option ℕ)
    (ts : List Time)
    → sch.zone.parse_date date ≡ d
    → enabled st kind ≡ true
    → times_on now sch st (pos_part (eta st kind)) d ≡ times_of ts
    → IsOffer now sch st kind date ts
asked now sch st kind date none ts p o h = absurd (unfold times_on in ground (arith, h))
asked now sch st kind date (some day) ts p o h =
    let r = on_day now sch st (pos_part (eta st kind)) day ts h in
    let rests = paused st now && is_none st.paused_until in
    record {
      day = day;
      dated = p;
      offered = o;
      from_today = r.0;
      to_limit = r.1;
      promised =
          subst (All (IsPromised now st (pos_part (eta st kind)) (periods sch day))) r.2
            (kept now sch st (pos_part (eta st kind)) day rests);
      complete = λ n q m k le.
          subst (IsIn (nth_slot sch.zone now st (pos_part (eta st kind)) q k)) r.2
            (found now sch st (pos_part (eta st kind)) day rests n q m k le);
    }

-- Times are only offered for an order type that is on, and for a date from today to the last that can be
-- scheduled; each leaves the kitchen its minutes after the opening of one of the date's periods, after
-- now and after a pause that holds, and is not after the end of that period. No slot of a period that the
-- kitchen can make is left out, unless the store is paused until further notice.
pub times-IsOffer :
    (now : Time) (sch : Schedule) (st : Settings) (kind date : String) (ts : List Time)
    → times now sch st kind date ≡ times_of ts
    → IsOffer now sch st kind date ts
unfolding times
times-IsOffer now sch st kind date ts h =
    asked now sch st kind date (sch.zone.parse_date date) ts refl (ground (arith, h))
      (ground (arith, h))
