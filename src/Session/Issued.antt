-- ===== src/Session/Issued.antt =====
-- backend/internal/transport/session/session.go: what is issued is verified until it expires.
use posserver.Prelude.{
  ℕ, ◌+◌, ◌*◌, ◌/◌, ◌^◌, ◌≤◌, ◌<◌, ◌≡◌, refl, ap, ◌∙◌, inl, inr, true, false, ◌||◌, Option, none,
  some, List, [], arith, leb, Bool-cases,
}
use posserver.Prelude.Int.{pos, ◌-ℤ◌, ltb_ℤ}
use mathlib.Core.Path.{subst}
use posserver.Order.Types.{Time, Uuid}
use posserver.Session.Base64.{AreBytes}
use posserver.Session.Decimal.{IsInt64}
use posserver.Session.Parts.{is_bar, is_bar-Lacks}
use posserver.Session.{
  Libraries, Claims, Signer, Request, Cookie, unix, issue_for, issue, issue_as, verify, unexpired,
  is_empty, second, ttl, impersonate_ttl,
}
use posserver.Session.RoundTrip.{AreSums, IsPrinted, IsPlain, decode-encode}

unix-le : (t u : Time) → t ≤ u → ltb_ℤ (unix u) (unix t) ≡ false
unfolding unix ◌-ℤ◌
unix-le t u h = ground arith

unix-lt : (t u : Time) → t + second ≤ u → ltb_ℤ (unix t) (unix u) ≡ true
unfolding unix ◌-ℤ◌
unix-lt t u h = ground arith

unix-IsInt64 : (t : Time) → t < 2 ^ 63 * second → IsInt64 (unix t)
unfolding unix ◌-ℤ◌
unix-IsInt64 t h = elim (Bool-cases (leb 62_135_596_800 (t / second + 0))) [
  | inl p ↦ rw p (omega arith)
  | inr n ↦ rw n (omega arith)
]

-- The cookie stands for the claims until the time, and for none a second after it.
pub record IsGood (l : Libraries) (s : Signer) (until : Time) (c : Claims) (value : List ℕ)
    : Type 0 where
  pub before : (t : Time) → t ≤ until → verify l s t (some value) ≡ some c
  pub after : (t : Time) → until + second ≤ t → verify l s t (some value) ≡ none

module _ (l : Libraries) (s : Signer) (sums : AreSums l) where
  issue_for-IsGood :
      (r : Option Request) (now : Time) (c : Claims) (life : ℕ)
      → IsPlain l (record c { exp = unix (now + life) })
      → IsGood l s
          (now + life)
          (record c { exp = unix (now + life) })
          (issue_for l s r now c life).value
  unfolding issue_for verify
  issue_for-IsGood r now c life p =
      let d = decode-encode l s (record c { exp = unix (now + life) }) sums p in
      record {
        before = λ t h. ap (unexpired t) d ∙ rw (unix-le t (now + life) h) refl;
        after = λ t h. ap (unexpired t) d ∙ rw (unix-lt (now + life) t h) refl;
      }

  -- A manager's session is good for twelve hours, with its store and nobody's label.
  pub verify-issue :
      (r : Option Request) (now : Time) (tenant_id location_id : Uuid)
      → IsPrinted l tenant_id
      → IsPrinted l location_id
      → now + ttl < 2 ^ 63 * second
      → IsGood l s
          (now + ttl)
          (record {
            tenant_id = tenant_id;
            location_id = location_id;
            exp = unix (now + ttl);
            impersonated_by = [];
          })
          (issue l s r now tenant_id location_id).value
  unfolding issue
  verify-issue r now tenant_id location_id a b h =
      issue_for-IsGood r now
        (record {
          tenant_id = tenant_id;
          location_id = location_id;
          exp = pos 0;
          impersonated_by = [];
        })
        ttl
        (record {
          tenant = a;
          location = b;
          in_range = unix-IsInt64 (now + ttl) h;
          bytes = tt;
          no_bar = tt;
        })

  -- A cookie that `IssueAs` makes is verified for two hours, as the store, the expiry and the label that
  -- it was issued with, and refused from a second after them on.
  pub verify-issue_as :
      (r : Option Request) (now : Time) (tenant_id location_id : Uuid) (by : List ℕ)
      (cookie : Cookie)
      → IsPrinted l tenant_id
      → IsPrinted l location_id
      → now + impersonate_ttl < 2 ^ 63 * second
      → AreBytes by
      → issue_as l s r now tenant_id location_id by ≡ some cookie
      → IsGood l s
          (now + impersonate_ttl)
          (record {
            tenant_id = tenant_id;
            location_id = location_id;
            exp = unix (now + impersonate_ttl);
            impersonated_by = by;
          })
          cookie.value
  unfolding issue_as
  verify-issue_as r now tenant_id location_id by cookie a b h p e =
      let c : Claims = record {
        tenant_id = tenant_id;
        location_id = location_id;
        exp = pos 0;
        impersonated_by = by;
      } in
      elim (Bool-cases (is_empty by || is_bar by)) [
        | inl bad ↦ absurd (ground (arith, e, bad))
        | inr good ↦
            (let same : issue_for l s r now c impersonate_ttl ≡ cookie = ground (arith, e, good) in
              subst
                (λ (x : Cookie).
                  IsGood l s (now + impersonate_ttl)
                    (record c { exp = unix (now + impersonate_ttl) }) x.value)
                same
                (issue_for-IsGood r now c impersonate_ttl (record {
                  tenant = a;
                  location = b;
                  in_range = unix-IsInt64 (now + impersonate_ttl) h;
                  bytes = p;
                  no_bar = is_bar-Lacks by (ground (arith, good));
                })))
      ]
