-- ===== src/StoreStatus/Schedule.antt =====
-- backend/internal/domain/storestatus/status.go, `Schedule`: the open periods around an instant. A zone's
-- midnights exist. Periods that start together keep their order in a sort, as Go's does for short slices.
use posserver.Prelude.{
  ℕ, zero, suc, ◌+◌, ◌-◌, ◌*◌, String, Bool, true, false, not, ◌&&◌, ◌||◌, Option, none, some, List,
  [], ◌∷◌, ◌++◌, map, ltb, leb, if◌then◌else◌, str_eq, lookup,
}
use posserver.Prelude.Sort.{sort_stable}
use posserver.Prelude.Strings.{trim_space, parse_clock}
use posserver.Order.Types.{Time}
use posserver.StoreStatus.Hours.{
  Zone, HoursRange, OpeningHours, minute, weekday, day_ranges, validate,
}

pub record Exception : Type 0 where
  pub id : String
  pub date : String
  pub closed : Bool
  pub hours : List HoursRange
  pub note : String

abbrev pub is_nil {ℓ} : {A : Type ℓ} → List A → Bool
is_nil [] = true
is_nil (x ∷ xs) = false

abbrev pub is_none {ℓ} : {A : Type ℓ} → Option A → Bool
is_none none = true
is_none (some a) = false

-- `Exception.Validate`, with what it sets; `none` is its error.
unfoldable pub validate_exception : Zone → Exception → Option Exception
unfolding validate
validate_exception z e =
    if is_none (z.parse_date e.date)
    then none
    else if e.closed
    then some (record e { hours = [] })
    else if is_nil e.hours || not (validate (("mon", e.hours) ∷ []))
    then none
    else some (record e { note = trim_space e.note })

pub record Schedule : Type 0 where
  pub weekly : OpeningHours
  pub exceptions : List (String × Exception)
  pub zone : Zone

pub record Period : Type 0 where
  pub start : Time
  pub end : Time

-- `HoursSet`.
unfoldable pub any_hours : OpeningHours → Bool
any_hours [] = false
any_hours ((day, ranges) ∷ h) = not (is_nil ranges) || any_hours h

-- `hhmm`: the zero time where the text is no time.
abbrev pub or_midnight : Option ℕ → ℕ
or_midnight none = 0
or_midnight (some m) = m

unfoldable pub hhmm : String → ℕ
hhmm s = or_midnight (parse_clock (trim_space s))

abbrev pub hours_of : Schedule → ℕ → Option Exception → List HoursRange
hours_of sch d none = day_ranges (lookup (weekday d) sch.weekly)
hours_of sch d (some e) = if e.closed then [] else e.hours

-- `DayHours`.
unfoldable pub day_hours : Schedule → ℕ → List HoursRange × Option Exception
unfolding weekday lookup
day_hours sch d = let e = lookup (sch.zone.date_text d) sch.exceptions in (hours_of sch d e, e)

unfoldable pub period_of : Zone → ℕ → HoursRange → Period
unfolding hhmm
period_of z d r =
    let o = hhmm r.opens in
    let c = hhmm r.closes in
    record { start = z.at d o; end = if leb c o then z.at (d + 1) c else z.at d c }

abbrev pub starts_before : Period → Period → Bool
starts_before p q = ltb p.start q.start

-- `Periods`.
unfoldable pub periods : Schedule → ℕ → List Period
unfolding any_hours day_hours period_of sort_stable
periods sch d =
    let hours = day_hours sch d in
    if not (any_hours sch.weekly) && is_none hours.1
    then record { start = sch.zone.at d 0; end = sch.zone.at (d + 1) 0 } ∷ []
    else sort_stable starts_before (map (period_of sch.zone d) hours.0)

unfoldable pub collect : Schedule → ℕ → ℕ → List Period
unfolding periods
collect sch d zero = []
collect sch d (suc n) = periods sch d ++ collect sch (d + 1) n

-- `periodsAround`: from the day before to `days` days after.
unfoldable pub periods_around : Schedule → Time → ℕ → List Period
unfolding collect sort_stable
periods_around sch t days =
    sort_stable starts_before (collect sch (sch.zone.day_of t - 1) (days + 2))

abbrev pub holds : Period → Time → Bool
holds p t = leb p.start t && ltb t p.end

unfoldable pub holding : List Period → Time → Option Period
holding [] t = none
holding (p ∷ ps) t = let rest = holding ps t in if holds p t then some p else rest

-- `Current`, `OpenAt`.
unfoldable pub current : Schedule → Time → Option Period
unfolding holding periods_around
current sch t = holding (periods_around sch t 0) t

abbrev pub open_at : Schedule → Time → Bool
open_at sch t = not (is_none (current sch t))

unfoldable pub first_after : List Period → Time → Option Time
first_after [] t = none
first_after (p ∷ ps) t = let rest = first_after ps t in if ltb t p.start then some p.start else rest

-- `NextOpen`.
unfoldable pub next_open : Schedule → Time → Option Time
unfolding first_after periods_around current
next_open sch t = if open_at sch t then some t else first_after (periods_around sch t 14) t

unfoldable pub extend : List Period → Time → Time
extend [] end = end
extend (q ∷ qs) end = extend qs (if leb q.start end && ltb end q.end then q.end else end)

abbrev pub closes_from : Schedule → Option Period → Option Time
closes_from sch none = none
closes_from sch (some p) =
    if any_hours sch.weekly then some (extend (periods_around sch p.end 1) p.end) else none

-- `ClosesAt`.
unfoldable pub closes_at : Schedule → Time → Option Time
unfolding extend periods_around current any_hours
closes_at sch t = closes_from sch (current sch t)

-- What `PauseUntil` returns: a time or none, or its error.
pub data PauseEnd : Type 0 where
  until : Option Time → PauseEnd
  bad_pause : PauseEnd

unfoldable pub latest : List Period → Time → Time
latest [] end = end
latest (p ∷ ps) end = latest ps (if ltb end p.end then p.end else end)

abbrev pub started_before : Option Period → Time → Bool
started_before none t = false
started_before (some p) t = ltb p.start t

-- `PauseUntil`.
unfoldable pub pause_until : Schedule → Time → String → PauseEnd
unfolding latest periods closes_at current any_hours
pause_until sch now preset =
    let today = sch.zone.day_of now in
    if str_eq preset "15m"
    then until (some (now + 15 * minute))
    else if str_eq preset "30m"
    then until (some (now + 30 * minute))
    else if str_eq preset "60m"
    then until (some (now + 60 * minute))
    else if str_eq preset "indefinite"
    then until none
    else if str_eq preset "today"
    then (if started_before (current sch now) (sch.zone.at today 0) && any_hours sch.weekly
        then until (closes_at sch now)
        else until (some (latest (periods sch today) (sch.zone.at (today + 1) 0))))
    else bad_pause

-- `LastReset`.
unfoldable pub last_reset : Zone → Time → ℕ → Time
last_reset z now hour =
    let today = z.day_of now in
    if ltb now (z.at today (hour * 60))
    then z.at (today - 1) (hour * 60)
    else z.at today (hour * 60)
