-- ===== src/Session.antt =====
-- backend/internal/transport/session/session.go: the cookie of a store manager's session, which carries its
-- claims and a signature of them. A text is its bytes.
pub mod Base64
pub mod Decimal
pub mod Parts
pub mod RoundTrip
pub mod Issued
pub mod Signed
mod Examples
use posserver.Prelude.{
  IsIn, IsIn-All, contains_last, All, All-append, All-weaken, contains-append, IsDistinct,
  IsDistinct-append, ℕ, zero, suc, ◌+◌, ◌-◌, ◌*◌, ◌/◌, ◌%◌, ◌^◌, ◌≤◌, ◌<◌, min, max, String, ◌≡◌,
  refl, sym, ap, ◌∙◌, ◌≢◌, ◌↔◌, ◌⊎◌, inl, inr, Bool, true, false, not, ◌&&◌, ◌||◌, Option, none,
  some, List, [], ◌∷◌, ◌++◌, map, arith, ltb, leb, ◌==◌, if◌then◌else◌, ltb→lt, lt→ltb, leb→le,
  ==_iff, tests, Bool-cases, Option-cases, length, get_elem?, take, drop, replicate, str_eq,
  str_eq_iff, str_eq_refl, ◌<>◌, contains, lookup, insert, delete, lookup-insert, lookup-delete,
}
use posserver.Prelude.Int.{
  ℤ, pos, negsuc, pos_part, neg_part, sub_ℕ, ◌+ℤ◌, ◌-ℤ◌, ◌*ℤ◌, ◌≤ℤ◌, ltb_ℤ, leb_ℤ, eq_ℤ, neg_ℤ,
  quot_ℤ, ◌<ℤ◌, +ℤ_parts, -ℤ_parts, eq_of_parts, int_laws, sum_ℤ, parts_of_eq, neg_ℤ_parts,
}
use posserver.Order.Types.{Time, Uuid}
use posserver.Session.Base64.{encode_text, decode_text, hex}
use posserver.Session.Decimal.{format_int, parse_int}
use posserver.Session.Parts.{bytes_eq, cut_last, split, is_bar}

-- HMAC-SHA256 of a key and a message, and `uuid.UUID.String` and `uuid.Parse`.
pub record Libraries : Type 0 where
  pub hmac : List ℕ → List ℕ → List ℕ
  pub uuid_text : Uuid → List ℕ
  pub uuid_parse : List ℕ → Option Uuid

pub record Claims : Type 0 where
  pub tenant_id : Uuid
  pub location_id : Uuid
  pub exp : ℤ
  pub impersonated_by : List ℕ

pub record Signer : Type 0 where
  pub secret : List ℕ
  pub secure : Bool

abbrev pub second : ℕ
second = 1_000_000_000

abbrev pub ttl : ℕ
ttl = 43_200 * second

abbrev pub impersonate_ttl : ℕ
impersonate_ttl = 7200 * second

-- `New`, which refuses a secret of fewer than 16 bytes.
unfoldable pub new : List ℕ → Bool → Option Signer
new secret secure =
    if ltb (length secret) 16 then none else some (record { secret = secret; secure = secure })

-- `Signer.mac`.
unfoldable pub mac : Libraries → Signer → List ℕ → List ℕ
unfolding hex
mac l s payload = hex (l.hmac s.secret payload)

abbrev pub label : List ℕ → List ℕ
label [] = []
label (b ∷ by) = 124 ∷ b ∷ by

-- The fields of a payload, with bars between them.
unfoldable pub fields : Libraries → Claims → List ℕ
unfolding format_int
fields l c =
    l.uuid_text c.tenant_id
    ++ 124 ∷ (l.uuid_text c.location_id ++ 124 ∷ (format_int c.exp ++ label c.impersonated_by))

-- `Signer.encode`.
unfoldable pub encode : Libraries → Signer → Claims → List ℕ
unfolding fields mac encode_text
encode l s c = let payload = encode_text (fields l c) in payload ++ 46 ∷ mac l s payload

infixl 5 ◌>>=◌
abbrev pub ◌>>=◌ : {A B : Type 0} → Option A → (A → Option B) → Option B
none >>= f = none
some a >>= f = f a

unfoldable pub claims_of : Libraries → List ℕ → List ℕ → List ℕ → List ℕ → Option Claims
unfolding parse_int
claims_of l tenant location exp by = do
  tid ← l.uuid_parse tenant
  lid ← l.uuid_parse location
  e ← parse_int exp
  some (record { tenant_id = tid; location_id = lid; exp = e; impersonated_by = by })

abbrev pub is_empty : List ℕ → Bool
is_empty [] = true
is_empty (b ∷ bs) = false

-- Three parts, or four with a label.
unfoldable pub parts_claims : Libraries → List (List ℕ) → Option Claims
unfolding claims_of
parts_claims l (tenant ∷ location ∷ exp ∷ []) = claims_of l tenant location exp []
parts_claims l (tenant ∷ location ∷ exp ∷ by ∷ []) =
    if is_empty by then none else claims_of l tenant location exp by
parts_claims l parts = none

abbrev pub text_claims : Libraries → Option (List ℕ) → Option Claims
text_claims l none = none
text_claims l (some text) = parts_claims l (split 124 text)

abbrev pub checked : Libraries → Signer → Option (List ℕ × List ℕ) → Option Claims
checked l s none = none
checked l s (some (payload, sig)) =
    if bytes_eq sig (mac l s payload) then text_claims l (decode_text payload) else none

-- `Signer.decode`.
unfoldable pub decode : Libraries → Signer → List ℕ → Option Claims
unfolding cut_last bytes_eq mac decode_text split parts_claims
decode l s value = checked l s (cut_last 46 value)

-- `time.Time.Unix`, from Go's zero time.
unfoldable pub unix : Time → ℤ
unix t = pos (t / second) -ℤ pos 62_135_596_800

-- How a request came: none at hand, over TLS, or with https as what a proxy forwarded.
pub record Request : Type 0 where
  pub tls : Bool
  pub forwarded_https : Bool

-- `Signer.secureFor`.
unfoldable pub secure_for : Signer → Option Request → Bool
secure_for s none = s.secure
secure_for s (some r) = s.secure && (r.tls || r.forwarded_https)

-- What `http.SetCookie` writes; name, path, HttpOnly and SameSite are constants.
pub record Cookie : Type 0 where
  pub value : List ℕ
  pub secure : Bool
  pub max_age : ℤ

-- `Signer.issue`.
unfoldable pub issue_for : Libraries → Signer → Option Request → Time → Claims → ℕ → Cookie
unfolding encode secure_for unix
issue_for l s r now c life = record {
  value = encode l s (record c { exp = unix (now + life) });
  secure = secure_for s r;
  max_age = pos (life / second);
}

-- `Signer.Issue`.
unfoldable pub issue : Libraries → Signer → Option Request → Time → Uuid → Uuid → Cookie
unfolding issue_for
issue l s r now tenant_id location_id =
    issue_for l s r now
      (record {
        tenant_id = tenant_id;
        location_id = location_id;
        exp = pos 0;
        impersonated_by = [];
      })
      ttl

-- `Signer.IssueAs`; `none` is `ErrBadImpersonator`.
unfoldable pub issue_as :
    Libraries → Signer → Option Request → Time → Uuid → Uuid → List ℕ → Option Cookie
unfolding issue_for is_bar
issue_as l s r now tenant_id location_id by =
    if is_empty by || is_bar by
    then none
    else some (
        issue_for l s r now
          (record {
            tenant_id = tenant_id;
            location_id = location_id;
            exp = pos 0;
            impersonated_by = by;
          })
          impersonate_ttl)

-- `Signer.Clear`.
unfoldable pub clear : Signer → Option Request → Cookie
unfolding secure_for
clear s r = record { value = []; secure = secure_for s r; max_age = negsuc 0 }

abbrev pub unexpired : Time → Option Claims → Option Claims
unexpired now none = none
unexpired now (some c) = if ltb_ℤ c.exp (unix now) then none else some c

abbrev pub verify_value : Libraries → Signer → Time → Option (List ℕ) → Option Claims
verify_value l s now none = none
verify_value l s now (some value) = unexpired now (decode l s value)

-- `Signer.Verify`, given the value of the request's cookie, if it has one.
unfoldable pub verify : Libraries → Signer → Time → Option (List ℕ) → Option Claims
unfolding decode unix
verify l s now value = verify_value l s now value
