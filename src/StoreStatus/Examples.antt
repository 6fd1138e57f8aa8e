-- ===== src/StoreStatus/Examples.antt =====
-- backend/internal/domain/storestatus/status.go: a store in UTC that is open from 11:00 to 01:00 each Monday.
use posserver.Prelude.{
  ℕ, ◌+◌, ◌*◌, ◌/◌, ◌≤◌, ◌<◌, ◌≡◌, refl, true, false, none, some, [], ◌∷◌, arith,
}
use posserver.Prelude.Int.{pos}
use posserver.Prelude.Strings.{parse_clock, trim_space}
use posserver.Order.Types.{Time}
use posserver.StoreStatus.Hours.{Zone, minute}
use posserver.StoreStatus.Schedule.{Schedule, closes_at, open_at}
use posserver.StoreStatus.Status.{Settings, compute}
use posserver.StoreStatus.Slots.{times, times_of}
use posserver.StoreStatus.Computed.{IsConsistent, compute-IsConsistent}
use posserver.StoreStatus.Offered.{IsOffer, times-IsOffer}
use posserver.StoreStatus.Slots.{ceil_slot, slot}
use posserver.StoreStatus.Ceiling.{ceil_slot_lem}

abbrev day : ℕ
day = 1440 * minute

-- UTC, with a date written as "d" and read as the fourteenth.
abbrev utc : Zone
utc = record {
  day_of = λ t. t / day;
  at = λ d m. d * day + m * minute;
  hour_start = λ t. t / (60 * minute) * (60 * minute);
  date_text = λ d. "d";
  parse_date = λ s. some 14;
}

abbrev mondays : Schedule
mondays = record {
  weekly = ("mon", record { opens = "11:00"; closes = "01:00" } ∷ []) ∷ [];
  exceptions = [];
  zone = utc;
}

abbrev settings : Settings
settings = record {
  pickup_enabled = true;
  delivery_enabled = false;
  pickup_eta_minutes = pos 20;
  delivery_eta_minutes = pos 45;
  schedule_days = pos 7;
  paused_at = none;
  paused_until = none;
  pause_note = "";
}

-- Half past midnight of the Tuesday after, and eleven at night before it.
abbrev late : Time
late = 15 * day + 30 * minute

abbrev evening : Time
evening = 14 * day + 1385 * minute

closes_at_one :
    (open_at mondays late ≡ true) × (closes_at mondays late ≡ some (15 * day + 60 * minute))
unfolding closes_at parse_clock trim_space
closes_at_one = (refl, refl)

-- The last of them is when the period closes.
promised :
    times evening mondays settings "pickup" "d"
    ≡ times_of (
        (14 * day + 1410 * minute)
        ∷ (14 * day + 1425 * minute)
        ∷ (15 * day)
        ∷ (15 * day + 15 * minute)
        ∷ (15 * day + 30 * minute)
        ∷ (15 * day + 45 * minute)
        ∷ (15 * day + 60 * minute)
        ∷ [])
unfolding times parse_clock trim_space
promised = refl

compute-IsConsistent_example :
    IsConsistent late mondays settings (compute late mondays settings (pos 5000))
compute-IsConsistent_example = compute-IsConsistent late mondays settings (pos 5000)

times-IsOffer_example : IsOffer evening mondays settings "pickup" "d" (
    (14 * day + 1410 * minute)
    ∷ (14 * day + 1425 * minute)
    ∷ (15 * day)
    ∷ (15 * day + 15 * minute)
    ∷ (15 * day + 30 * minute)
    ∷ (15 * day + 45 * minute)
    ∷ (15 * day + 60 * minute)
    ∷ [])
times-IsOffer_example = times-IsOffer evening mondays settings "pickup" "d" _ promised

ceil_slot_lem_example :
    let c = ceil_slot utc (evening + 1) in
    (evening + 1 ≤ c)
    × (c < evening + 1 + slot)
    × ((k : ℕ) × (c ≡ utc.hour_start (evening + 1) + k * slot))
ceil_slot_lem_example = ceil_slot_lem utc (evening + 1) (omega arith)
