-- ===== src/Session/RoundTrip.antt =====
-- backend/internal/transport/session/session.go: what is signed is read back.
use posserver.Prelude.{All-append, ℕ, ◌≡◌, refl, ap, ◌∙◌, some, List, [], ◌∷◌, ◌++◌, arith}
use posserver.Prelude.Int.{ℤ}
use mathlib.Core.List.{append-nil}
use posserver.Order.Types.{Uuid}
use posserver.Session.Base64.{
  AreBytes, Lacks, encode_text, decode_text, decode_text-encode_text, hex-Lacks,
}
use posserver.Session.Decimal.{
  format_int-AreBytes, format_int, IsInt64, parse_int-format_int, format_int-Lacks,
}
use posserver.Session.Parts.{split, bytes_eq_refl, cut_last-append, split-append, split-last}
use posserver.Session.{
  Libraries, Claims, Signer, mac, label, fields, encode, claims_of, parts_claims, text_claims,
  checked, decode,
}

label-AreBytes : (by : List ℕ) → AreBytes by → AreBytes (label by)
label-AreBytes [] p = tt
label-AreBytes (b ∷ by) p = (omega arith, p)

-- What is relied on: a sum is bytes, and a UUID is printed without bars and read back.
abbrev pub AreSums : Libraries → Type 0
AreSums l = (key message : List ℕ) → AreBytes (l.hmac key message)

pub record IsPrinted (l : Libraries) (u : Uuid) : Type 0 where
  pub bytes : AreBytes (l.uuid_text u)
  pub no_bar : Lacks 124 (l.uuid_text u)
  pub parses : l.uuid_parse (l.uuid_text u) ≡ some u

-- Claims that a payload can carry.
pub record IsPlain (l : Libraries) (c : Claims) : Type 0 where
  pub tenant : IsPrinted l c.tenant_id
  pub location : IsPrinted l c.location_id
  pub in_range : IsInt64 c.exp
  pub bytes : AreBytes c.impersonated_by
  pub no_bar : Lacks 124 c.impersonated_by

module _ (l : Libraries) where
  claims_of-text :
      (c : Claims)
      → IsPlain l c
      → claims_of l
          (l.uuid_text c.tenant_id)
          (l.uuid_text c.location_id)
          (format_int c.exp)
          c.impersonated_by
        ≡ some c
  unfolding claims_of
  claims_of-text c p =
      rw (p.tenant.parses, p.location.parses, parse_int-format_int c.exp p.in_range) refl

  -- The parts behind the two ids.
  last_parts : ℤ → List ℕ → List (List ℕ)
  last_parts exp [] = format_int exp ∷ []
  last_parts exp (b ∷ by) = format_int exp ∷ (b ∷ by) ∷ []

  split-label :
      (exp : ℤ) (by : List ℕ)
      → Lacks 124 by
      → split 124 (format_int exp ++ label by) ≡ last_parts exp by
  unfolding last_parts
  split-label exp [] p =
      ap (split 124) (append-nil (format_int exp))
      ∙ split-last 124 (format_int exp) (format_int-Lacks 124 exp refl refl)
  split-label exp (b ∷ by) p =
      split-append 124 (format_int exp) (b ∷ by) (format_int-Lacks 124 exp refl refl)
      ∙ ap (λ ps. format_int exp ∷ ps) (split-last 124 (b ∷ by) p)

  split-fields :
      (c : Claims)
      → IsPlain l c
      → split 124 (fields l c)
        ≡ l.uuid_text c.tenant_id ∷ l.uuid_text c.location_id ∷ last_parts c.exp c.impersonated_by
  unfolding fields
  split-fields c p =
      split-append 124 (l.uuid_text c.tenant_id) _ p.tenant.no_bar
      ∙ ap (λ ps. l.uuid_text c.tenant_id ∷ ps)
          (split-append 124 (l.uuid_text c.location_id) _ p.location.no_bar
            ∙ ap (λ ps. l.uuid_text c.location_id ∷ ps)
                (split-label c.exp c.impersonated_by p.no_bar))

  parts_claims-last :
      (t i : List ℕ) (exp : ℤ) (by : List ℕ)
      → parts_claims l (t ∷ i ∷ last_parts exp by) ≡ claims_of l t i (format_int exp) by
  unfolding parts_claims last_parts
  parts_claims-last t i exp [] = refl
  parts_claims-last t i exp (b ∷ by) = refl

  fields-AreBytes : (c : Claims) → IsPlain l c → AreBytes (fields l c)
  unfolding fields
  fields-AreBytes c p = All-append _ (l.uuid_text c.tenant_id) _ p.tenant.bytes (
    omega arith,
    All-append _ (l.uuid_text c.location_id) _ p.location.bytes (
      omega arith,
      All-append _ (format_int c.exp) _ (format_int-AreBytes c.exp)
          (label-AreBytes c.impersonated_by p.bytes),
    ),
  )

  text-checked :
      (s : Signer) (c : Claims)
      → IsPlain l c
      → let payload = encode_text (fields l c) in
        checked l s (some (payload, mac l s payload)) ≡ some c
  text-checked s c p =
      let payload = encode_text (fields l c) in
      let text : text_claims l (decode_text payload) ≡ some c =
        ap (text_claims l) (decode_text-encode_text (fields l c) (fields-AreBytes c p))
        ∙ (ap (parts_claims l) (split-fields c p)
            ∙ (parts_claims-last (l.uuid_text c.tenant_id) (l.uuid_text c.location_id) c.exp
                  c.impersonated_by
                ∙ claims_of-text c p)) in
      rw (bytes_eq_refl (mac l s payload)) text

  -- Claims that are signed are read back as they are.
  pub decode-encode :
      (s : Signer) (c : Claims) → AreSums l → IsPlain l c → decode l s (encode l s c) ≡ some c
  unfolding decode encode mac
  decode-encode s c sums p =
      let payload = encode_text (fields l c) in
      let sig = mac l s payload in
      ap (checked l s) (cut_last-append 46 payload sig (hex-Lacks _ (sums s.secret payload)))
      ∙ text-checked s c p
