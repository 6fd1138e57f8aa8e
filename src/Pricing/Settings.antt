-- ===== src/Pricing/Settings.antt =====
-- backend/internal/domain/pricing/settings.go: a store's pricing settings and the deals it keeps. What
-- `Validate` writes to its receiver is returned beside the error, `none` being nil; an absent slice
-- and an empty one are one list.
use posserver.Prelude.{
  String, Bool, true, false, not, ◌||◌, Option, none, some, List, [], ◌∷◌, ltb, if◌then◌else◌,
  length, str_eq,
}
use posserver.Prelude.Int.{ℤ, pos, ltb_ℤ}
use posserver.Pricing.Types.{Tips, CardFee, CardFeeMode, no_fee, Stacking, best, Settings}

pub record Fees : Type 0 where
  pub service_fee_cents : ℤ
  pub service_fee_bps : ℤ
  pub delivery_fee_cents : ℤ
  pub free_delivery_over_cents : Option ℤ
  pub delivery_min_cents : ℤ

pub record StoreSettings : Type 0 where
  pub tax_bps : ℤ
  pub stacking : Stacking
  pub fees : Fees
  pub tips : Tips
  pub card_fee : CardFee

pub record KindOverride : Type 0 where
  pub fees : Option Fees
  pub tips : Option Tips
  pub card_fee : Option CardFee

abbrev pub or_else {ℓ} : {A : Type ℓ} → Option A → A → A
or_else none a = a
or_else (some b) a = b

-- `Effective`.
unfoldable pub effective : StoreSettings → KindOverride → Settings
effective s o =
    let f = or_else o.fees s.fees in
    record {
      tax_bps = s.tax_bps;
      stacking = s.stacking;
      service_fee_cents = f.service_fee_cents;
      service_fee_bps = f.service_fee_bps;
      delivery_fee_cents = f.delivery_fee_cents;
      free_delivery_over_cents = f.free_delivery_over_cents;
      delivery_min_cents = f.delivery_min_cents;
      tips = or_else o.tips s.tips;
      card_fee = or_else o.card_fee s.card_fee;
    }

-- Outside of 0 to the bound.
abbrev pub is_off : ℤ → ℤ → Bool
is_off bound n = ltb_ℤ n (pos 0) || ltb_ℤ bound n

abbrev is_off_if : ℤ → Option ℤ → Bool
is_off_if bound none = false
is_off_if bound (some n) = is_off bound n

unfoldable pub bad_fees : Fees → Bool
bad_fees f =
    is_off (pos 10_000) f.service_fee_cents
    || is_off (pos 3000) f.service_fee_bps
    || is_off (pos 10_000) f.delivery_fee_cents
    || is_off (pos 100_000) f.delivery_min_cents
    || is_off_if (pos 100_000) f.free_delivery_over_cents

unfoldable pub bad_preset : List ℤ → Bool
bad_preset [] = false
bad_preset (p ∷ ps) = is_off (pos 100) p || bad_preset ps

abbrev pub no_mode : CardFeeMode → CardFeeMode
no_mode (CardFeeMode.other s) = if str_eq s "" then no_fee else CardFeeMode.other s
no_mode m = m

abbrev pub is_mode : CardFeeMode → Bool
is_mode (CardFeeMode.other s) = false
is_mode m = true

unfoldable pub fees_error : Option Fees → Option String
unfolding bad_fees
fees_error none = none
fees_error (some f) =
    if bad_fees f
    then some "fees out of range (service ≤ $100 or 30%, delivery ≤ $100, minimum ≤ $1000)"
    else none

unfoldable pub tips_error : Option Tips → Option String
unfolding bad_preset
tips_error none = none
tips_error (some t) =
    if is_off (pos 100) t.default_pct || ltb 6 (length t.presets)
    then some "tips: default 0–100%, at most 6 presets"
    else if bad_preset t.presets
    then some "tip presets are 0–100%"
    else none

abbrev pub with_mode : CardFee → CardFee
with_mode c = record c { mode = no_mode c.mode }

unfoldable pub card_error : Option CardFee → Option String
card_error none = none
card_error (some c) =
    if not (is_mode (no_mode c.mode)) || is_off (pos 1000) c.bps
    then some "card fee: none, surcharge or cash_discount, at most 10%"
    else none

-- `validSets`: the error, and the card fee as it leaves it.
unfoldable pub valid_sets :
    Option Fees → Option Tips → Option CardFee → Option String × Option CardFee
unfolding fees_error tips_error card_error
valid_sets f t c = elim (fees_error f) [
  | some e ↦ (some e, c)
  | none ↦ elim (tips_error t) [
    | some e ↦ (some e, c)
    | none ↦ (card_error c, elim c [ none ↦ none | some fee ↦ some (with_mode fee) ])
  ]
]

abbrev pub no_stacking : Stacking → Stacking
no_stacking (Stacking.other s) = if str_eq s "" then best else Stacking.other s
no_stacking m = m

abbrev pub is_stacking : Stacking → Bool
is_stacking (Stacking.other s) = false
is_stacking m = true

-- The sets of a store's settings.
unfoldable pub validate_sets : StoreSettings → Option String × StoreSettings
validate_sets s =
    let r = valid_sets (some s.fees) (some s.tips) (some s.card_fee) in
    (r.0, record s { card_fee = or_else r.1 s.card_fee })

-- `StoreSettings.Validate`.
unfoldable pub validate_store : StoreSettings → Option String × StoreSettings
validate_store s =
    if is_off (pos 3000) s.tax_bps
    then (some "tax must be 0–30%", s)
    else (let s1 = record s { stacking = no_stacking s.stacking } in
        if not (is_stacking s1.stacking)
        then (some "stacking must be best, stack or single", s1)
        else validate_sets s1)

-- `KindOverride.Validate`.
unfoldable pub validate_override : KindOverride → Option String × KindOverride
validate_override o =
    let r = valid_sets o.fees o.tips o.card_fee in (r.0, record o { card_fee = r.1 })
