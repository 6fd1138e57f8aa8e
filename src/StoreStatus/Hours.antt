-- ===== src/StoreStatus/Hours.antt =====
-- backend/internal/domain/tenancy/hours.go: a week's opening hours. A zone is what Go's `time` says of a
-- location: the local date of an instant, as days since 1 January of the year 1 (a Monday), the instant of
-- a date's wall-clock minute, and the start of an instant's local hour.
use posserver.Prelude.{
  ℕ, ◌+◌, ◌-◌, ◌%◌, String, Bool, true, false, not, ◌&&◌, ◌||◌, Option, none, some, List, [], ◌∷◌,
  ltb, leb, ◌==◌, if◌then◌else◌, length, get_elem?, contains, lookup,
}
use posserver.Prelude.Strings.{trim_space, parse_clock, codes}
use posserver.Order.Types.{Time}

pub record Zone : Type 0 where
  pub day_of : Time → ℕ
  pub at : ℕ → ℕ → Time
  pub hour_start : Time → Time
  -- `time.DateOnly`.
  pub date_text : ℕ → String
  pub parse_date : String → Option ℕ

abbrev pub minute : ℕ
minute = 60_000_000_000

pub record HoursRange : Type 0 where
  pub opens : String
  pub closes : String

abbrev pub OpeningHours : Type 0
OpeningHours = List (String × List HoursRange)

-- `Weekdays`.
abbrev pub weekdays : List String
weekdays = "mon" ∷ "tue" ∷ "wed" ∷ "thu" ∷ "fri" ∷ "sat" ∷ "sun" ∷ []

-- `Weekdays[(int(day.Weekday())+6)%7]` of a date.
unfoldable pub weekday : ℕ → String
weekday d = elim (get_elem? weekdays (d % 7)) [ none ↦ "" | some day ↦ day ]

-- `parseHHMM`: five characters.
unfoldable pub parse_hhmm : String → Option ℕ
parse_hhmm s = if length (codes (trim_space s)) == 5 then parse_clock (trim_space s) else none

abbrev differ : Option ℕ → Option ℕ → Bool
differ (some o) (some c) = not (o == c)
differ _ _ = false

unfoldable pub are_ranges : List HoursRange → Bool
unfolding parse_hhmm
are_ranges [] = true
are_ranges (r ∷ rs) = differ (parse_hhmm r.opens) (parse_hhmm r.closes) && are_ranges rs

-- `OpeningHours.Validate`, whether there is no error.
unfoldable pub validate : OpeningHours → Bool
unfolding are_ranges contains
validate [] = true
validate ((day, ranges) ∷ h) = contains weekdays day && are_ranges ranges && validate h

abbrev pub day_ranges : Option (List HoursRange) → List HoursRange
day_ranges none = []
day_ranges (some ranges) = ranges

abbrev within : Zone → ℕ → Time → ℕ → Option ℕ → Option ℕ → Bool
within z day t grace (some o) (some c) =
    leb (z.at day o - grace) t && ltb t ((if leb c o then z.at (day + 1) c else z.at day c) + grace)
within z day t grace _ _ = false

unfoldable pub any_range : Zone → ℕ → Time → ℕ → List HoursRange → Bool
unfolding parse_hhmm
any_range z day t grace [] = false
any_range z day t grace (r ∷ rs) =
    within z day t grace (parse_hhmm r.opens) (parse_hhmm r.closes) || any_range z day t grace rs

-- `OpeningHours.IsOpen`: the ranges of today, then those of yesterday.
unfoldable pub is_open : OpeningHours → Zone → Time → ℕ → Bool
unfolding any_range weekday lookup
is_open h z t grace =
    let today = z.day_of t in
    any_range z today t grace (day_ranges (lookup (weekday today) h))
    || any_range z (today - 1) t grace (day_ranges (lookup (weekday (today - 1)) h))
