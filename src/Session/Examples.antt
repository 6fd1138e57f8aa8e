-- ===== src/Session/Examples.antt =====
-- backend/internal/transport/session/session.go: an admin opens a store for two hours.
use posserver.Prelude.{
  ℕ, ◌+◌, ◌*◌, ◌%◌, ◌≡◌, refl, true, none, some, List, [], ◌∷◌, ◌++◌, arith, if◌then◌else◌, length,
}
use posserver.Prelude.Int.{pos, ◌-ℤ◌, ◌≤ℤ◌}
use posserver.Order.Types.{Time, Uuid}
use posserver.Prelude.Strings.{codes}
use posserver.Session.Base64.{encode_text, hex, symbol}
use posserver.Session.Decimal.{format_int, digits}
use posserver.Session.Parts.{bytes_eq}
use posserver.Session.{
  Libraries, Claims, Signer, Cookie, second, impersonate_ttl, fields, mac, encode, unix, issue_for,
  issue_as, verify,
}
use posserver.Session.RoundTrip.{AreSums, IsPrinted}
use posserver.Session.Issued.{IsGood, verify-issue_as}
use posserver.Session.Signed.{IsSigned, verify-IsSigned}

abbrev tenant : Uuid
tenant = "t"

abbrev store : Uuid
store = "n"

-- A sum of one byte, and two UUIDs.
abbrev toy : Libraries
toy = record {
  hmac = λ key message. length message % 256 ∷ [];
  uuid_text = codes;
  uuid_parse = λ s.
      if bytes_eq s (codes tenant)
      then some tenant
      else if bytes_eq s (codes store)
      then some store
      else none;
}

toy-AreSums : AreSums toy
toy-AreSums key message = (omega arith, tt)

tenant-IsPrinted : IsPrinted toy tenant
unfolding bytes_eq
tenant-IsPrinted = record { bytes = (omega arith, tt); no_bar = (refl, tt); parses = refl }

store-IsPrinted : IsPrinted toy store
unfolding bytes_eq
store-IsPrinted = record { bytes = (omega arith, tt); no_bar = (refl, tt); parses = refl }

abbrev signer : Signer
signer = record { secret = codes "sixteen bytes or"; secure = true }

-- In the year 2026.
abbrev now : Time
now = 63_900_000_000 * second

abbrev admin : List ℕ
admin = codes "admin"

abbrev payload : List ℕ
payload = codes "dHxufDE3NjQ0MTA0MDB8YWRtaW4"

abbrev cookie : Cookie
cookie = record { value = payload ++ 46 ∷ codes "1b"; secure = true; max_age = pos 7200 }

abbrev claims : Claims
claims = record {
  tenant_id = tenant;
  location_id = store;
  exp = pos 1_764_410_400;
  impersonated_by = admin;
}

issued : issue_as toy signer none now tenant store admin ≡ some cookie
unfolding issue_as issue_for encode fields mac unix ◌-ℤ◌ encode_text symbol format_int digits hex
issued = refl

verify-issue_as_example :
    IsGood toy signer
      (now + impersonate_ttl)
      (record {
        tenant_id = tenant;
        location_id = store;
        exp = unix (now + impersonate_ttl);
        impersonated_by = admin;
      })
      cookie.value
verify-issue_as_example =
    verify-issue_as toy signer toy-AreSums none now tenant store admin cookie tenant-IsPrinted
      store-IsPrinted (omega arith)
      (omega arith, (omega arith, (omega arith, (omega arith, (omega arith, tt))))) issued

verified : verify toy signer now (some cookie.value) ≡ some claims
unfolding verify unix ◌-ℤ◌
verified = refl

verify-IsSigned_example :
    (v : List ℕ) × (some cookie.value ≡ some v)
    × IsSigned toy signer v claims
    × (unix now ≤ℤ claims.exp)
verify-IsSigned_example = verify-IsSigned toy signer now (some cookie.value) claims verified
