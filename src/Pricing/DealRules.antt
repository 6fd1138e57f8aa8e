-- ===== src/Pricing/DealRules.antt =====
-- backend/internal/domain/pricing/settings.go, `Deal.Validate`: the deals that a store may keep. What it
-- writes to the deal is returned beside the error.
use posserver.Prelude.{
  ℕ, ◌+◌, String, Bool, true, false, not, ◌&&◌, ◌||◌, Option, none, some, List, [], ◌∷◌, ltb, leb,
  ◌==◌, if◌then◌else◌, length, str_eq, contains,
}
use posserver.Prelude.Int.{pos, ltb_ℤ}
use posserver.Prelude.Strings.{trim_space, to_upper, codes}
use posserver.Pricing.Types.{
  Deal, DealKind, bundle, mix, nth, promo_code, free_item, Schedule, Slot, Eligible, World,
}
use posserver.Pricing.Live.{hhmm}

abbrev bool_eq : Bool → Bool → Bool
bool_eq true b = b
bool_eq false b = not b

abbrev pub is_no_eligible : Option Eligible → Bool
is_no_eligible none = true
is_no_eligible (some el) = length el.items + length el.categories == 0

abbrev day_keys : List String
day_keys = "mon" ∷ "tue" ∷ "wed" ∷ "thu" ∷ "fri" ∷ "sat" ∷ "sun" ∷ []

unfoldable pub are_days : List String → Bool
are_days [] = true
are_days (d ∷ ds) = contains day_keys d && are_days ds

abbrev is_clock : String → Bool
is_clock t = str_eq t "" || elim (hhmm t) [ none ↦ false | some m ↦ true ]

abbrev pub schedule_error : Option Schedule → Option String
schedule_error none = none
schedule_error (some s) =
    if not (are_days s.days)
    then some "schedule days are mon..sun"
    else if not (is_clock s.start && is_clock s.end)
    then some "schedule times are HH:MM"
    else none

-- A character of `[A-Z0-9-]`.
abbrev is_code_char : ℕ → Bool
is_code_char c = (leb 65 c && leb c 90) || (leb 48 c && leb c 57) || c == 45

abbrev all_code : List ℕ → Bool
all_code [] = true
all_code (c ∷ cs) = is_code_char c && all_code cs

-- `codeRe`.
abbrev is_code_text : String → Bool
is_code_text s = leb 2 (length (codes s)) && leb (length (codes s)) 20 && all_code (codes s)

-- The bytes of a text in UTF-8: its `len`.
abbrev pub bytes : List ℕ → ℕ
bytes [] = 0
bytes (c ∷ cs) =
    (if ltb c 0x80 then 1 else if ltb c 0x800 then 2 else if ltb c 0x10000 then 3 else 4) + bytes cs

unfoldable pub bad_slot : List Slot → Bool
bad_slot [] = false
bad_slot (s ∷ ss) =
    str_eq (trim_space s.label) ""
    || is_no_eligible (some s.eligible)
    || ltb_ℤ s.included_options (pos 0)
    || bad_slot ss

abbrev bundle_error : Deal → Option String
bundle_error d =
    if ltb_ℤ d.price_cents (pos 0) || length d.slots == 0 || ltb 10 (length d.slots)
    then some "a bundle needs a price and 1–10 steps"
    else if bad_slot d.slots
    then some "every bundle step needs a label and items or categories"
    else none

-- The switch on the kind.
unfoldable pub kind_error : DealKind → Deal → Option String
kind_error bundle d = bundle_error d
kind_error mix d =
    if ltb_ℤ d.qty (pos 2) || ltb_ℤ d.each_cents (pos 0) || is_no_eligible d.eligible
    then some "mix & match needs 2 or more, a price each and items or categories"
    else none
kind_error nth d =
    if ltb_ℤ d.n (pos 2)
      || ltb_ℤ d.pct (pos 1)
      || ltb_ℤ (pos 100) d.pct
      || is_no_eligible d.eligible
    then some "every-nth needs n ≥ 2, 1–100% off and items or categories"
    else none
kind_error promo_code d =
    if not (is_code_text d.code)
      || bool_eq (ltb_ℤ (pos 0) d.pct) (ltb_ℤ (pos 0) d.amount_cents)
      || ltb_ℤ (pos 100) d.pct
      || ltb_ℤ d.amount_cents (pos 0)
      || ltb_ℤ d.min_subtotal_cents (pos 0)
    then some "a code is 2–20 letters/digits with either a % or an amount off"
    else none
kind_error free_item d =
    if is_no_eligible d.eligible || ltb_ℤ d.min_subtotal_cents (pos 0)
    then some "a free item needs items or categories and a minimum"
    else none
kind_error (DealKind.other s) d = some "kind must be bundle, mix, nth, code or free_item"

-- The code of a code deal, trimmed and in upper case.
unfoldable pub normal_code : World → DealKind → Deal → Deal
normal_code w promo_code d = record d { code = to_upper w.tables (trim_space d.code) }
normal_code w k d = d

abbrev pub is_fulfil : String → Bool
is_fulfil s = str_eq s "" || str_eq s "both" || str_eq s "pickup" || str_eq s "delivery"

-- The switch on the kind, unless the schedule is refused.
unfoldable pub check_kind : World → Deal → Option String → Option String × Deal
unfolding kind_error normal_code
check_kind w d (some e) = (some e, d)
check_kind w d none = (kind_error d.kind (normal_code w d.kind d), normal_code w d.kind d)

-- `Deal.Validate`.
unfoldable pub validate_deal : World → Deal → Option String × Deal
validate_deal w given =
    let d = record given { name = trim_space given.name } in
    if str_eq d.name "" || ltb 80 (bytes (codes d.name))
    then (some "a name (≤ 80 characters) is required", d)
    else if not (is_fulfil d.fulfil)
    then (some "fulfil must be pickup, delivery or both", d)
    else check_kind w d (schedule_error d.schedule)
