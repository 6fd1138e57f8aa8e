-- ===== src/Session/Decimal.antt =====
-- What backend/internal/transport/session/session.go uses of Go's strconv: `FormatInt` and `ParseInt` of an
-- `int64` in base 10, over bytes. The digits recur on fuel: as many as the number are more than enough.
use posserver.Prelude.{
  ℕ, zero, suc, ◌+◌, ◌-◌, ◌*◌, ◌/◌, ◌%◌, ◌^◌, ◌≤◌, ◌<◌, ◌≡◌, refl, ap, ◌∙◌, inl, inr, true, false,
  ◌||◌, Option, none, some, List, [], ◌∷◌, arith, ltb, leb, ◌==◌, if◌then◌else◌, Bool-cases,
}
use posserver.Session.Base64.{Lacks, AreBytes}
use posserver.Prelude.Int.{ℤ, pos, negsuc, neg_ℤ}

unfoldable pub digits : ℕ → ℕ → List ℕ → List ℕ
digits zero n out = out
digits (suc fuel) n out =
    let out' = (48 + n % 10) ∷ out in
    let more = digits fuel (n / 10) out' in if ltb n 10 then out' else more

-- `FormatInt(z, 10)`.
unfoldable pub format_int : ℤ → List ℕ
unfolding digits
format_int (pos n) = digits (suc n) n []
format_int (negsuc n) = 45 ∷ digits (suc (suc n)) (suc n) []

-- `ParseUint`, from the number that is read so far.
unfoldable pub scan : List ℕ → ℕ → Option ℕ
scan [] n = some n
scan (c ∷ s) n =
    let n' = n * 10 + (c - 48) in
    let rest = scan s n' in
    if ltb c 48 || ltb 57 c then none else if leb (2 ^ 64) n' then none else rest

unfoldable pub parse_uint : List ℕ → Option ℕ
unfolding scan
parse_uint [] = none
parse_uint (c ∷ s) = scan (c ∷ s) 0

abbrev pub positive : Option ℕ → Option ℤ
positive none = none
positive (some n) = if ltb n (2 ^ 63) then some (pos n) else none

abbrev pub negative : Option ℕ → Option ℤ
negative none = none
negative (some n) = if leb n (2 ^ 63) then some (neg_ℤ (pos n)) else none

-- `ParseInt(s, 10, 64)`.
unfoldable pub parse_int : List ℕ → Option ℤ
unfolding parse_uint
parse_int [] = none
parse_int (c ∷ s) =
    if c == 43
    then positive (parse_uint s)
    else if c == 45
    then negative (parse_uint s)
    else positive (parse_uint (c ∷ s))

-- The range of an `int64`.
abbrev pub IsInt64 : ℤ → Type 0
IsInt64 (pos n) = n < 2 ^ 63
IsInt64 (negsuc n) = n < 2 ^ 63

-- A digit that was printed is read back.
scan_digit : (n : ℕ) (out : List ℕ) → n < 2 ^ 64 → scan ((48 + n % 10) ∷ out) (n / 10) ≡ scan out n
unfolding scan
scan_digit n out h = ground arith

scan-digits :
    (fuel n : ℕ) (out : List ℕ) → n < fuel → n < 2 ^ 64 → scan (digits fuel n out) 0 ≡ scan out n
unfolding digits
scan-digits zero n out f h = absurd (omega arith)
scan-digits (suc fuel) n out f h =
    ground (arith, scan_digit n out h, scan-digits fuel (n / 10) ((48 + n % 10) ∷ out))

-- The print starts with a digit.
abbrev Starts : List ℕ → Type 0
Starts [] = ⊥
Starts (c ∷ s) = (48 ≤ c) × (c ≤ 57)

digits-Starts : (fuel n : ℕ) (out : List ℕ) → Starts out → Starts (digits fuel n out)
unfolding digits
digits-Starts zero n out p = p
digits-Starts (suc fuel) n out p = ground (arith, digits-Starts fuel (n / 10) ((48 + n % 10) ∷ out))

digits-suc-Starts : (fuel n : ℕ) (out : List ℕ) → Starts (digits (suc fuel) n out)
unfolding digits
digits-suc-Starts fuel n out =
    ground (arith, digits-Starts fuel (n / 10) ((48 + n % 10) ∷ out) (omega arith, omega arith))

parse_uint-scan : (s : List ℕ) → Starts s → parse_uint s ≡ scan s 0
unfolding parse_uint
parse_uint-scan [] p = absurd p
parse_uint-scan (c ∷ s) p = refl

parse_int-scan : (s : List ℕ) → Starts s → parse_int s ≡ positive (scan s 0)
unfolding parse_int parse_uint
parse_int-scan [] p = absurd p
parse_int-scan (c ∷ s) p = ground arith

scan_all : (n : ℕ) → n < 2 ^ 64 → scan (digits (suc n) n []) 0 ≡ some n
scan_all n h = scan-digits (suc n) n [] (omega arith) h ∙ (unfold scan in refl)

parse_int-minus : (s : List ℕ) → parse_int (45 ∷ s) ≡ negative (parse_uint s)
unfolding parse_int
parse_int-minus s = refl

negated : (n : ℕ) → n < 2 ^ 63 → negative (some (suc n)) ≡ some (negsuc n)
unfolding neg_ℤ
negated n h = ground arith

-- Every int64 is read back from its print.
pub parse_int-format_int : (z : ℤ) → IsInt64 z → parse_int (format_int z) ≡ some z
unfolding format_int
parse_int-format_int (pos n) h =
    parse_int-scan _ (digits-suc-Starts n n [])
    ∙ (ap positive (scan_all n (omega arith)) ∙ ground arith)
parse_int-format_int (negsuc n) h =
    parse_int-minus _
    ∙ (ap negative (
          parse_uint-scan _ (digits-suc-Starts (suc n) (suc n) []) ∙ scan_all (suc n) (omega arith))
        ∙ negated n h)

digits-Lacks :
    (c fuel n : ℕ) (out : List ℕ)
    → (ltb c 48 || ltb 57 c) ≡ true
    → Lacks c out
    → Lacks c (digits fuel n out)
unfolding digits
digits-Lacks c zero n out h p = p
digits-Lacks c (suc fuel) n out h p =
    let p' : Lacks c ((48 + n % 10) ∷ out) = (ground arith, p) in
    elim (Bool-cases (ltb n 10)) [
      | inl t ↦ rw t p'
      | inr f ↦ rw f (digits-Lacks c fuel (n / 10) ((48 + n % 10) ∷ out) h p')
    ]

-- A print has no other bytes than digits and a minus.
pub format_int-Lacks :
    (c : ℕ) (z : ℤ) → (ltb c 48 || ltb 57 c) ≡ true → (c == 45) ≡ false → Lacks c (format_int z)
unfolding format_int
format_int-Lacks c (pos n) h m = digits-Lacks c (suc n) n [] h tt
format_int-Lacks c (negsuc n) h m = (ground arith, digits-Lacks c (suc (suc n)) (suc n) [] h tt)

digits-AreBytes : (fuel n : ℕ) (out : List ℕ) → AreBytes out → AreBytes (digits fuel n out)
unfolding digits
digits-AreBytes zero n out p = p
digits-AreBytes (suc fuel) n out p =
    let p' : AreBytes ((48 + n % 10) ∷ out) = (omega arith, p) in
    elim (Bool-cases (ltb n 10)) [
      | inl t ↦ rw t p'
      | inr f ↦ rw f (digits-AreBytes fuel (n / 10) ((48 + n % 10) ∷ out) p')
    ]

pub format_int-AreBytes : (z : ℤ) → AreBytes (format_int z)
unfolding format_int
format_int-AreBytes (pos n) = digits-AreBytes (suc n) n [] tt
format_int-AreBytes (negsuc n) = (omega arith, digits-AreBytes (suc (suc n)) (suc n) [] tt)
