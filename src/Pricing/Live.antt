-- ===== src/Pricing/Live.antt =====
-- backend/internal/domain/pricing/engine.go: percentages, money texts, and when a deal runs.
use posserver.Prelude.{
  ℕ, suc, ◌+◌, ◌*◌, ◌/◌, ◌%◌, String, Bool, true, false, not, ◌&&◌, ◌||◌, Option, none, some, List,
  [], ◌∷◌, ltb, leb, ◌==◌, if◌then◌else◌, str_eq, ◌<>◌, contains,
}
use posserver.Prelude.Int.{ℤ, pos, negsuc, ◌+ℤ◌, ◌*ℤ◌, neg_ℤ, quot_ℤ}
use posserver.Prelude.Strings.{trim_space, parse_clock, itoa}
use posserver.Order.Types.{Time}
use posserver.Pricing.Types.{Deal, Schedule, Eligible, Local, World}

-- `Pct`: amount × bps / 10000, rounded half up, mirrored below zero.
unfoldable pub pct : ℤ → ℤ → ℤ
pct (pos amount) bps = quot_ℤ (pos amount *ℤ bps +ℤ pos 5000) 10_000
pct (negsuc amount) bps = neg_ℤ (quot_ℤ (pos (suc amount) *ℤ bps +ℤ pos 5000) 10_000)

-- `%02d`.
unfoldable pub two_digits : ℕ → String
two_digits n = if ltb n 10 then "0" <> itoa n else itoa n

-- `Money`: "$12.50", and "−$1.00" below zero.
unfoldable pub money : ℤ → String
unfolding two_digits
money (pos c) = "$" <> itoa (c / 100) <> "." <> two_digits (c % 100)
money (negsuc c) = "−$" <> itoa (suc c / 100) <> "." <> two_digits (suc c % 100)

-- `hhmm`.
unfoldable pub hhmm : String → Option ℕ
hhmm s = parse_clock (trim_space s)

-- `weekdays[local.Weekday()]`.
unfoldable pub weekday_key : ℕ → String
weekday_key d =
    if d == 0
    then "sun"
    else if d == 1
    then "mon"
    else if d == 2
    then "tue"
    else if d == 3
    then "wed"
    else if d == 4
    then "thu"
    else if d == 5
    then "fri"
    else "sat"

-- UTC, where 1 January of the year 1, the zero time, was a Monday.
unfoldable pub utc : Time → Local
utc t =
    let minutes = t / 60_000_000_000 in
    record { weekday = (minutes / 1440 + 1) % 7; hour = minutes % 1440 / 60; minute = minutes % 60 }

unfoldable pub zone_or_utc : Option (Time → Local) → Time → Local
unfolding utc
zone_or_utc none = utc
zone_or_utc (some z) = z

-- The last switch of `Live`.
unfoldable pub in_window : Option ℕ → Option ℕ → ℕ → Bool
in_window (some start) (some end) now =
    if leb end start
    then leb start now || ltb now end
    else if ltb now start
    then false
    else if leb end now
    then false
    else true
in_window (some start) none now = if ltb now start then false else true
in_window none (some end) now = if leb end now then false else true
in_window none none now = true

abbrev pub is_empty {ℓ} : {A : Type ℓ} → List A → Bool
is_empty [] = true
is_empty (x ∷ xs) = false

unfoldable pub runs_at : Schedule → Local → Bool
unfolding weekday_key in_window
runs_at s here =
    if not (is_empty s.days) && not (contains s.days (weekday_key here.weekday))
    then false
    else in_window (hhmm s.start) (hhmm s.end) (here.hour * 60 + here.minute)

unfoldable pub scheduled : Option Schedule → Local → Bool
unfolding runs_at
scheduled none here = true
scheduled (some s) here = runs_at s here

-- `Live`: the order type "" is any.
unfoldable pub live : World → Deal → String → Time → String → Bool
live w d tz at order_type =
    if not d.active
    then false
    else if not (str_eq d.fulfil "")
        && not (str_eq d.fulfil "both")
        && not (str_eq order_type "")
        && not (str_eq d.fulfil order_type)
    then false
    else scheduled d.schedule (zone_or_utc (w.zones tz) at)

-- One eligible unit of an item line; the item "" is not eligible.
pub record UnitPrice : Type 0 where
  pub price : ℤ
  pub item : String
  pub category : String
  pub size : String

-- `matches`.
unfoldable pub matches : Eligible → UnitPrice → Bool
matches el u =
    if str_eq u.item ""
    then false
    else if not (contains el.items u.item)
        && not (not (str_eq u.category "") && contains el.categories u.category)
    then false
    else if not (is_empty el.sizes)
    then not (str_eq u.size "") && contains el.sizes u.size
    else true
