-- ===== src/Pricing/Passed.antt =====
-- backend/internal/domain/pricing/settings.go, `Deal.Validate`: what an accepted deal has passed.
use posserver.Prelude.{
  String, ◌≡◌, refl, Bool, true, false, not, ◌||◌, Option, none, some, ltb, if◌then◌else◌, str_eq,
}
use mathlib.Core.Option.{some-ne-none}
use posserver.Prelude.Strings.{codes, trim_space}
use posserver.Pricing.Types.{Deal, DealKind, World}
use posserver.Pricing.DealRules.{
  normal_code, check_kind, bytes, is_fulfil, schedule_error, kind_error, validate_deal,
}

-- An accepted deal has passed the switch on its kind.
pub record HasPassed (r : Option String × Deal) : Type 0 where
  pub kind : r.0 ≡ none → kind_error r.1.kind r.1 ≡ none

if-HasPassed :
    (b : Bool) (e : String) (d : Deal) (r : Option String × Deal)
    → HasPassed r
    → HasPassed (if b then (some e, d) else r)
if-HasPassed true e d r p = record { kind = λ h. absurd (some-ne-none e h) }
if-HasPassed false e d r p = p

normal_code-kind : (w : World) (k : DealKind) (d : Deal) → (normal_code w k d).kind ≡ d.kind
unfolding normal_code
normal_code-kind w DealKind.promo_code d = refl
normal_code-kind w _ d = refl

check_kind-HasPassed : (w : World) (d : Deal) (e : Option String) → HasPassed (check_kind w d e)
unfolding check_kind
check_kind-HasPassed w d (some e) = record { kind = λ h. absurd (some-ne-none e h) }
check_kind-HasPassed w d none = record { kind = λ h. rw (normal_code-kind w d.kind d) h }

pub validate_deal-HasPassed : (w : World) (given : Deal) → HasPassed (validate_deal w given)
unfolding validate_deal
validate_deal-HasPassed w given =
    let d : Deal = record given { name = trim_space given.name } in
    if-HasPassed (str_eq d.name "" || ltb 80 (bytes (codes d.name))) _ d _ (
      if-HasPassed (not (is_fulfil d.fulfil)) _ d _
        (check_kind-HasPassed w d (schedule_error d.schedule)))
