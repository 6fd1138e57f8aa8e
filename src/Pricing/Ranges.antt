-- ===== src/Pricing/Ranges.antt =====
-- backend/internal/domain/pricing/settings.go: what validated settings are, and what a validated deal
-- takes off.
use posserver.Prelude.{
  String, ◌≡◌, refl, Bool, true, false, not, Option, none, some, arith, if◌then◌else◌,
}
use posserver.Prelude.Int.{ℤ, pos, ◌≤ℤ◌}
use mathlib.Core.Option.{some-ne-none}
use posserver.Pricing.Types.{Settings, CardFee, Tips}
use posserver.Pricing.Settings.{
  Fees, StoreSettings, KindOverride, or_else, effective, is_off, bad_fees, fees_error, tips_error,
  card_error, valid_sets, validate_sets, validate_store, validate_override, is_mode, is_stacking,
  no_stacking, with_mode,
}

abbrev pub Within : ℤ → ℤ → Type 0
Within bound n = (pos 0 ≤ℤ n) × (n ≤ℤ bound)

abbrev pub IsFeesInRange : Fees → Type 0
IsFeesInRange f =
    Within (pos 10_000) f.service_fee_cents
    × Within (pos 3000) f.service_fee_bps
    × Within (pos 10_000) f.delivery_fee_cents
    × Within (pos 100_000) f.delivery_min_cents

abbrev pub IsCardInRange : CardFee → Type 0
IsCardInRange c = (is_mode c.mode ≡ true) × Within (pos 1000) c.bps

fees_error-none : (f : Fees) → fees_error (some f) ≡ none → IsFeesInRange f
unfolding fees_error bad_fees
fees_error-none f h = ground arith

tips_error-none : (t : Tips) → tips_error (some t) ≡ none → Within (pos 100) t.default_pct
unfolding tips_error
tips_error-none t h = ground arith

card_error-none : (c : CardFee) → card_error (some c) ≡ none → IsCardInRange (with_mode c)
unfolding card_error
card_error-none c h = ground arith

-- What an accepted set of each is.
valid_sets-none :
    (f : Option Fees) (t : Option Tips) (c : Option CardFee)
    → (valid_sets f t c).0 ≡ none
    → (fees_error f ≡ none)
      × (tips_error t ≡ none)
      × (card_error c ≡ none)
      × ((valid_sets f t c).1 ≡ (elim c [ none ↦ none | some fee ↦ some (with_mode fee) ]))
unfolding valid_sets
valid_sets-none f t c h = ground arith

-- The settings that `Effective` may give.
pub record IsInRange (s : Settings) : Type 0 where
  pub tax : Within (pos 3000) s.tax_bps
  pub service : Within (pos 10_000) s.service_fee_cents
  pub service_rate : Within (pos 3000) s.service_fee_bps
  pub delivery : Within (pos 10_000) s.delivery_fee_cents
  pub minimum : Within (pos 100_000) s.delivery_min_cents
  pub tip : Within (pos 100) s.tips.default_pct
  pub mode : is_mode s.card_fee.mode ≡ true
  pub card : Within (pos 1000) s.card_fee.bps
  pub stacking : is_stacking s.stacking ≡ true

abbrev Holds {ℓ} : {A : Type ℓ} → (A → Type 0) → Option A → Type 0
Holds p none = Unit
Holds p (some a) = p a

abbrev pub IsTipInRange : Tips → Type 0
IsTipInRange t = Within (pos 100) t.default_pct

-- The sets as `validSets` leaves them.
valid_sets-Holds :
    (f : Option Fees) (t : Option Tips) (c : Option CardFee)
    → (valid_sets f t c).0 ≡ none
    → Holds IsFeesInRange f × Holds IsTipInRange t × Holds IsCardInRange (valid_sets f t c).1
valid_sets-Holds f t c h =
    let (a, b, d, e) = valid_sets-none f t c h in
    (fees_hold f a, tips_hold t b, rw e (card_holds c d))
  where
    fees_hold : (f : Option Fees) → fees_error f ≡ none → Holds IsFeesInRange f
    fees_hold none h = tt
    fees_hold (some f) h = fees_error-none f h

    tips_hold : (t : Option Tips) → tips_error t ≡ none → Holds IsTipInRange t
    tips_hold none h = tt
    tips_hold (some t) h = tips_error-none t h

    card_holds :
        (c : Option CardFee)
        → card_error c ≡ none
        → Holds IsCardInRange (elim c [ none ↦ none | some fee ↦ some (with_mode fee) ])
    card_holds none h = tt
    card_holds (some c) h = card_error-none c h

or_else-holds :
    {A : Type 0} (p : A → Type 0) (o : Option A) (a : A) → Holds p o → p a → p (or_else o a)
or_else-holds p none a h x = x
or_else-holds p (some b) a h x = h

-- A store's settings as `Validate` leaves them.
record StoreInRange (s : StoreSettings) : Type 0 where
  tax : Within (pos 3000) s.tax_bps
  stacking : is_stacking s.stacking ≡ true
  fees : IsFeesInRange s.fees
  tip : IsTipInRange s.tips
  card : IsCardInRange s.card_fee

validate_sets-StoreInRange :
    (s : StoreSettings)
    → Within (pos 3000) s.tax_bps
    → is_stacking s.stacking ≡ true
    → (validate_sets s).0 ≡ none
    → StoreInRange (validate_sets s).1
unfolding validate_sets
validate_sets-StoreInRange s t k h =
    let (f, p, c) = valid_sets-Holds (some s.fees) (some s.tips) (some s.card_fee) h in
    let (a, b, d, e) = valid_sets-none (some s.fees) (some s.tips) (some s.card_fee) h in
    record { tax = t; stacking = k; fees = f; tip = p; card = rw e (card_error-none s.card_fee d) }

is_off-Within : (bound n : ℤ) → is_off bound n ≡ false → Within bound n
is_off-Within bound n h = ground arith

not-false : (b : Bool) → not b ≡ false → b ≡ true
not-false b h = ground arith

if-StoreInRange :
    (b : Bool) (e : String) (s : StoreSettings) (r : Option String × StoreSettings)
    → (b ≡ false → r.0 ≡ none → StoreInRange r.1)
    → (if b then (some e, s) else r).0 ≡ none
    → StoreInRange (if b then (some e, s) else r).1
if-StoreInRange true e s r p h = absurd (some-ne-none e h)
if-StoreInRange false e s r p h = p refl h

validate_store-StoreInRange :
    (s : StoreSettings) → (validate_store s).0 ≡ none → StoreInRange (validate_store s).1
unfolding validate_store
validate_store-StoreInRange s h =
    let s1 : StoreSettings = record s { stacking = no_stacking s.stacking } in
    let unknown = not (is_stacking s1.stacking) in
    let inner =
      if unknown then (some "stacking must be best, stack or single", s1) else validate_sets s1 in
    if-StoreInRange (is_off (pos 3000) s.tax_bps) "tax must be 0–30%" s inner
      (λ t.
        if-StoreInRange unknown "stacking must be best, stack or single" s1 (validate_sets s1) (λ k.
          validate_sets-StoreInRange s1 (is_off-Within (pos 3000) s.tax_bps t) (not-false _ k)))
      h

-- Settings that `Effective` makes of a store's settings and an override, both accepted by `Validate`
-- and as it leaves them, are in range: rates, fees, minimum and tip from 0 to their bounds, and
-- a card fee mode and a stacking that the engine knows.
pub effective-IsInRange :
    (s : StoreSettings) (o : KindOverride)
    → (validate_store s).0 ≡ none
    → (validate_override o).0 ≡ none
    → IsInRange (effective (validate_store s).1 (validate_override o).1)
unfolding effective validate_override
effective-IsInRange s o h k =
    let r = validate_store-StoreInRange s h in
    let (f, t, c) = valid_sets-Holds o.fees o.tips o.card_fee k in
    let fees = or_else-holds IsFeesInRange o.fees _ f r.fees in
    let card = or_else-holds IsCardInRange (valid_sets o.fees o.tips o.card_fee).1 _ c r.card in
    record {
      tax = r.tax;
      service = fees.0;
      service_rate = fees.1;
      delivery = fees.2;
      minimum = fees.3;
      tip = or_else-holds IsTipInRange o.tips _ t r.tip;
      mode = card.0;
      card = card.1;
      stacking = r.stacking;
    }
