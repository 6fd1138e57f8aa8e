-- ===== src/StoreStatus/Slots.antt =====
-- backend/internal/domain/storestatus/status.go, `Times` and `ceilSlot`: the times that an order can be
-- promised for. The loops recur on fuel, one more than the slots between their two ends.
use posserver.Prelude.{
  ℕ, zero, suc, ◌+◌, ◌-◌, ◌*◌, ◌/◌, String, Bool, true, not, ◌&&◌, ◌||◌, Option, none, some, List,
  [], ◌∷◌, ◌++◌, ltb, leb, if◌then◌else◌, str_eq,
}
use posserver.Prelude.Int.{pos, pos_part, eq_ℤ}
use posserver.Order.Types.{Time}
use posserver.StoreStatus.Hours.{Zone, minute}
use posserver.StoreStatus.Schedule.{Schedule, Period, is_none, periods}
use posserver.StoreStatus.Status.{Settings, paused, eta, enabled}

abbrev pub slot : ℕ
slot = 15 * minute

abbrev pub rounds : Time → Time → ℕ
rounds from to = (to - from) / slot + 2

unfoldable pub up : ℕ → Time → Time → Time
up zero base t = base
up (suc fuel) base t = let more = up fuel (base + slot) t in if ltb base t then more else base

-- `ceilSlot`.
unfoldable pub ceil_slot : Zone → Time → Time
unfolding up
ceil_slot z t = let base = z.hour_start t in up (rounds base t) base t

unfoldable pub slots : ℕ → Time → Time → List Time
slots zero t end = []
slots (suc fuel) t end = let more = slots fuel (t + slot) end in if leb t end then t ∷ more else []

abbrev pub max_time : Time → Time → Time
max_time t u = if ltb t u then u else t

abbrev pub after_pause : Bool → Option Time → Time → Time
after_pause true (some u) from = max_time from u
after_pause _ u from = from

-- When the kitchen can start on an order for a period.
abbrev pub ready : Time → Settings → Period → Time
ready now st p = after_pause (paused st now) st.paused_until (max_time p.start now)

-- The slots of one period.
unfoldable pub period_times : Zone → Time → Settings → ℕ → Period → List Time
unfolding ceil_slot slots
period_times z now st eta_minutes p =
    let t = ceil_slot z (ready now st p + eta_minutes * minute) in slots (rounds t p.end) t p.end

unfoldable pub all_times : Zone → Time → Settings → ℕ → List Period → List Time
unfolding period_times
all_times z now st eta_minutes [] = []
all_times z now st eta_minutes (p ∷ ps) =
    period_times z now st eta_minutes p ++ all_times z now st eta_minutes ps

-- What `Times` returns, or its error.
pub data TimesResult : Type 0 where
  times_of : List Time → TimesResult
  bad_type type_off schedule_off bad_date : TimesResult

unfoldable pub times_on : Time → Schedule → Settings → ℕ → Option ℕ → TimesResult
unfolding all_times periods paused
times_on now sch st eta_minutes none = bad_date
times_on now sch st eta_minutes (some day) =
    let today = sch.zone.day_of now in
    if ltb (sch.zone.at day 0) (sch.zone.at today 0)
      || ltb (sch.zone.at (today + pos_part st.schedule_days) 0) (sch.zone.at day 0)
    then bad_date
    else if paused st now && is_none st.paused_until
    then times_of []
    else times_of (all_times sch.zone now st eta_minutes (periods sch day))

-- `Times`; the settings are valid, so no number of theirs is negative.
unfoldable pub times : Time → Schedule → Settings → String → String → TimesResult
unfolding times_on
times now sch st kind date =
    if not (str_eq kind "pickup") && not (str_eq kind "delivery")
    then bad_type
    else if not (enabled st kind)
    then type_off
    else if eq_ℤ st.schedule_days (pos 0)
    then schedule_off
    else times_on now sch st (pos_part (eta st kind)) (sch.zone.parse_date date)
