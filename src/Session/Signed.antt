-- ===== src/Session/Signed.antt =====
-- backend/internal/transport/session/session.go: only what is signed is verified.
use posserver.Prelude.{
  ℕ, ◌≡◌, refl, sym, ap, ◌∙◌, inl, inr, false, Option, none, some, List, [], ◌∷◌, ◌++◌, arith,
  Bool-cases,
}
use posserver.Prelude.Int.{ℤ, ◌≤ℤ◌, ltb_ℤ}
use mathlib.Core.Path.{subst}
use posserver.Order.Types.{Time, Uuid}
use posserver.Session.Base64.{decode_text}
use posserver.Session.Decimal.{parse_int}
use posserver.Session.Parts.{bytes_eq, cut_last, split, bytes_eq_sound, cut_last_sound}
use posserver.Session.{
  Libraries, Claims, Signer, mac, claims_of, parts_claims, text_claims, checked, decode, unix,
  verify, ◌>>=◌, unexpired, is_empty,
}

-- The three parts that claims are read from.
pub record Reads (l : Libraries) (tenant location exp by : List ℕ) (c : Claims) : Type 0 where
  pub tenant_id : l.uuid_parse tenant ≡ some c.tenant_id
  pub location_id : l.uuid_parse location ≡ some c.location_id
  pub expiry : parse_int exp ≡ some c.exp
  pub label : c.impersonated_by ≡ by

-- The parts of a payload's text: three for a manager, and a fourth for a label, which is not empty.
pub data IsText (l : Libraries) (c : Claims) : List (List ℕ) → Type 0 where
  of_manager : (t i e : List ℕ) → Reads l t i e [] c → IsText l c (t ∷ i ∷ e ∷ [])
  of_label :
      (t i e by : List ℕ)
      → is_empty by ≡ false
      → Reads l t i e by c
      → IsText l c (t ∷ i ∷ e ∷ by ∷ [])

-- The value is a payload and its own signature, whose text says the claims.
pub record IsSigned (l : Libraries) (s : Signer) (value : List ℕ) (c : Claims) : Type 0 where
  pub payload : List ℕ
  pub text : List ℕ
  pub signature : value ≡ payload ++ 46 ∷ mac l s payload
  pub decoded : decode_text payload ≡ some text
  pub says : IsText l c (split 124 text)

some_claims : {c d : Claims} → some c ≡ some d → c ≡ d
some_claims h = ground (arith, h)

claims_from :
    (a b : Option Uuid) (d : Option ℤ) (by : List ℕ) (c : Claims)
    → (do
      tid ← a
      lid ← b
      e ← d
      some (record { tenant_id = tid; location_id = lid; exp = e; impersonated_by = by }))
      ≡ some c
    → (a ≡ some c.tenant_id)
      × (b ≡ some c.location_id)
      × (d ≡ some c.exp)
      × (c.impersonated_by ≡ by)
claims_from none b d by c h = absurd (ground (arith, h))
claims_from (some a) none d by c h = absurd (ground (arith, h))
claims_from (some a) (some b) none by c h = absurd (ground (arith, h))
claims_from (some a) (some b) (some d) by c h =
    let e = some_claims h in
    (
      ap (λ x. some x.tenant_id) e,
      ap (λ x. some x.location_id) e,
      ap (λ x. some x.exp) e,
      sym (ap (λ x. x.impersonated_by) e),
    )

claims_of-Reads :
    (l : Libraries) (t i e by : List ℕ) (c : Claims)
    → claims_of l t i e by ≡ some c
    → Reads l t i e by c
unfolding claims_of
claims_of-Reads l t i e by c h =
    let r = claims_from (l.uuid_parse t) (l.uuid_parse i) (parse_int e) by c h in
    record { tenant_id = r.0; location_id = r.1; expiry = r.2; label = r.3 }

parts_claims-IsText :
    (l : Libraries) (parts : List (List ℕ)) (c : Claims)
    → parts_claims l parts ≡ some c
    → IsText l c parts
unfolding parts_claims
parts_claims-IsText l [] c h = absurd (ground (arith, h))
parts_claims-IsText l (t ∷ []) c h = absurd (ground (arith, h))
parts_claims-IsText l (t ∷ i ∷ []) c h = absurd (ground (arith, h))
parts_claims-IsText l (t ∷ i ∷ e ∷ []) c h = of_manager t i e (claims_of-Reads l t i e [] c h)
parts_claims-IsText l (t ∷ i ∷ e ∷ by ∷ []) c h = elim (Bool-cases (is_empty by)) [
  | inl empty ↦ absurd (ground (arith, h, empty))
  | inr full ↦ of_label t i e by full (claims_of-Reads l t i e by c (ground (arith, h, full)))
]
parts_claims-IsText l (t ∷ i ∷ e ∷ by ∷ x ∷ xs) c h = absurd (ground (arith, h))

module _ (l : Libraries) (s : Signer) where
  text-IsSigned :
      (payload : List ℕ) (text : Option (List ℕ)) (c : Claims)
      → decode_text payload ≡ text
      → text_claims l text ≡ some c
      → IsSigned l s (payload ++ 46 ∷ mac l s payload) c
  text-IsSigned payload none c d h = absurd (ground (arith, h))
  text-IsSigned payload (some text) c d h = record {
    payload = payload;
    text = text;
    signature = refl;
    decoded = d;
    says = parts_claims-IsText l (split 124 text) c h;
  }

  checked-IsSigned :
      (cut : Option (List ℕ × List ℕ)) (value : List ℕ) (c : Claims)
      → ((p q : List ℕ) → cut ≡ some (p, q) → value ≡ p ++ 46 ∷ q)
      → checked l s cut ≡ some c
      → IsSigned l s value c
  checked-IsSigned none value c v h = absurd (ground (arith, h))
  checked-IsSigned (some (p, q)) value c v h = elim (Bool-cases (bytes_eq q (mac l s p))) [
    | inl same ↦
        subst (λ x. IsSigned l s x c)
          (sym (v p q refl ∙ ap (λ y. p ++ 46 ∷ y) (bytes_eq_sound q (mac l s p) same)))
          (text-IsSigned p (decode_text p) c refl (ground (arith, h, same)))
    | inr other ↦ absurd (ground (arith, h, other))
  ]

  decode-IsSigned : (value : List ℕ) (c : Claims) → decode l s value ≡ some c → IsSigned l s value c
  unfolding decode
  decode-IsSigned value c h =
      checked-IsSigned (cut_last 46 value) value c (cut_last_sound 46 value) h

  expires :
      (now : Time) (d : Option Claims) (c : Claims)
      → unexpired now d ≡ some c
      → (d ≡ some c) × (unix now ≤ℤ c.exp)
  expires now none c h = absurd (ground (arith, h))
  expires now (some d) c h = elim (Bool-cases (ltb_ℤ d.exp (unix now))) [
    | inl over ↦ absurd (ground (arith, h, over))
    | inr on ↦
        (let e : d ≡ c = ground (arith, h, on) in
          (ap some e, subst (λ x. unix now ≤ℤ x.exp) e (ground (arith, on))))
  ]

  -- A cookie that is verified carries the secret's signature of its payload, its text says exactly the
  -- claims that are returned, an empty label being no label, and its expiry is not over.
  pub verify-IsSigned :
      (now : Time) (value : Option (List ℕ)) (c : Claims)
      → verify l s now value ≡ some c
      → (v : List ℕ) × (value ≡ some v) × IsSigned l s v c × (unix now ≤ℤ c.exp)
  unfolding verify
  verify-IsSigned now none c h = absurd (ground (arith, h))
  verify-IsSigned now (some v) c h =
      let e = expires now (decode l s v) c h in (v, refl, decode-IsSigned v c e.0, e.1)
