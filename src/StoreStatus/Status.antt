-- ===== src/StoreStatus/Status.antt =====
-- backend/internal/domain/storestatus/status.go: the settings of a store and `Compute`, its status.
use posserver.Prelude.{
  ℕ, String, Bool, true, false, not, ◌&&◌, ◌||◌, Option, none, some, List, ltb, if◌then◌else◌,
  str_eq,
}
use posserver.Prelude.Int.{ℤ, pos, leb_ℤ}
use posserver.Order.Types.{Time}
use posserver.StoreStatus.Hours.{HoursRange}
use posserver.StoreStatus.Schedule.{
  Schedule, Exception, is_nil, is_none, any_hours, day_hours, current, open_at, next_open,
  closes_at,
}

pub record Settings : Type 0 where
  pub pickup_enabled : Bool
  pub delivery_enabled : Bool
  pub pickup_eta_minutes : ℤ
  pub delivery_eta_minutes : ℤ
  pub schedule_days : ℤ
  pub paused_at : Option Time
  pub paused_until : Option Time
  pub pause_note : String

abbrev in_bounds : ℤ → ℤ → Bool
in_bounds high v = leb_ℤ (pos 0) v && leb_ℤ v high

-- `Settings.Validate`, whether there is no error.
unfoldable pub validate_settings : Settings → Bool
validate_settings s =
    in_bounds (pos 240) s.pickup_eta_minutes
    && in_bounds (pos 240) s.delivery_eta_minutes
    && in_bounds (pos 30) s.schedule_days

abbrev pub is_later : Option Time → Time → Bool
is_later none t = true
is_later (some u) t = ltb t u

-- `Paused`.
unfoldable pub paused : Settings → Time → Bool
paused s now = not (is_none s.paused_at) && is_later s.paused_until now

-- `ETA`, `Enabled`.
abbrev pub eta : Settings → String → ℤ
eta s kind = if str_eq kind "delivery" then s.delivery_eta_minutes else s.pickup_eta_minutes

abbrev pub enabled : Settings → String → Bool
enabled s kind = if str_eq kind "delivery" then s.delivery_enabled else s.pickup_enabled

pub data State : Type 0 where
  store_open store_paused store_closed : State

pub record PauseInfo : Type 0 where
  pub since : Option Time
  pub until : Option Time
  pub note : String

pub record Today : Type 0 where
  pub date : String
  pub closed : Bool
  pub hours : List HoursRange
  pub note : String

pub record TypeStatus : Type 0 where
  pub enabled : Bool
  pub eta_minutes : ℤ
  pub radius_m : ℤ

pub record Status : Type 0 where
  pub state : State
  pub accepting : Bool
  pub open_now : Bool
  pub hours_set : Bool
  pub pause : Option PauseInfo
  pub next_open_at : Option Time
  pub closes : Option Time
  pub today : Today
  pub pickup : TypeStatus
  pub delivery : TypeStatus
  pub days_ahead : ℤ
  pub slot_minutes : ℕ

abbrev pub state_of : Bool → Bool → State
state_of true is_open = store_paused
state_of false false = store_closed
state_of false true = store_open

abbrev pub is_open_state : State → Bool
is_open_state store_open = true
is_open_state _ = false

-- The last switch of `Compute`.
abbrev pub next_order : Schedule → Bool → Option Time → Bool → Time → Option Time
next_order sch true none is_open now = none
next_order sch true (some u) is_open now = next_open sch u
next_order sch false u true now = none
next_order sch false u false now = next_open sch now

abbrev note_of : Option Exception → String
note_of none = ""
note_of (some e) = e.note

abbrev is_closed_day : Bool → List HoursRange → Option Exception → Bool
is_closed_day hours_set hours none = hours_set && is_nil hours
is_closed_day hours_set hours (some e) = e.closed || is_nil hours

-- `Compute`.
unfoldable pub compute : Time → Schedule → Settings → ℤ → Status
unfolding any_hours day_hours current next_open closes_at paused
compute now sch st radius_m =
    let is_paused = paused st now in
    let is_open = open_at sch now in
    let state = state_of is_paused is_open in
    let accepting = is_open_state state && (st.pickup_enabled || st.delivery_enabled) in
    let day = sch.zone.day_of now in
    let hours = day_hours sch day in
    record {
      state = state;
      accepting = accepting;
      open_now = is_open;
      hours_set = any_hours sch.weekly;
      pause =
          if is_paused
          then some (record { since = st.paused_at; until = st.paused_until; note = st.pause_note })
          else none;
      next_open_at =
          if accepting then none else next_order sch is_paused st.paused_until is_open now;
      closes = if is_open then closes_at sch now else none;
      today = record {
        date = sch.zone.date_text day;
        closed = is_closed_day (any_hours sch.weekly) hours.0 hours.1;
        hours = hours.0;
        note = note_of hours.1;
      };
      pickup = record {
        enabled = st.pickup_enabled;
        eta_minutes = st.pickup_eta_minutes;
        radius_m = pos 0;
      };
      delivery = record {
        enabled = st.delivery_enabled;
        eta_minutes = st.delivery_eta_minutes;
        radius_m = radius_m;
      };
      days_ahead = st.schedule_days;
      slot_minutes = 15;
    }
