-- ===== src/Session/Base64.antt =====
-- What backend/internal/transport/session/session.go uses of Go's encoding/base64 and encoding/hex:
-- `base64.RawURLEncoding`, which is not strict about the bits that the last symbol leaves over and skips
-- line breaks, and `hex.EncodeToString`. A text is its bytes.
use posserver.Prelude.{
  All, ℕ, ◌+◌, ◌-◌, ◌*◌, ◌/◌, ◌%◌, ◌<◌, ◌≡◌, refl, ap, ◌∙◌, Bool, false, ◌&&◌, ◌||◌, Option, none,
  some, List, [], ◌∷◌, arith, ltb, leb, ◌==◌, if◌then◌else◌,
}

-- The symbol of six bits.
unfoldable pub symbol : ℕ → ℕ
symbol v =
    if ltb v 26
    then 65 + v
    else if ltb v 52
    then 71 + v
    else if ltb v 62
    then v - 4
    else if v == 62
    then 45
    else 95

unfoldable pub symbol_value : ℕ → Option ℕ
symbol_value c =
    if leb 65 c && leb c 90
    then some (c - 65)
    else if leb 97 c && leb c 122
    then some (c - 71)
    else if leb 48 c && leb c 57
    then some (c + 4)
    else if c == 45
    then some 62
    else if c == 95
    then some 63
    else none

-- `EncodeToString`.
unfoldable pub encode_text : List ℕ → List ℕ
unfolding symbol
encode_text [] = []
encode_text (a ∷ []) = symbol (a / 4) ∷ symbol (a % 4 * 16) ∷ []
encode_text (a ∷ b ∷ []) = symbol (a / 4) ∷ symbol (a % 4 * 16 + b / 16) ∷ symbol (b % 16 * 4) ∷ []
encode_text (a ∷ b ∷ c ∷ rest) =
    symbol (a / 4)
    ∷ symbol (a % 4 * 16 + b / 16)
    ∷ symbol (b % 16 * 4 + c / 64)
    ∷ symbol (c % 64)
    ∷ encode_text rest

abbrev and_value : Option ℕ → Option (List ℕ) → Option (List ℕ)
and_value (some v) (some vs) = some (v ∷ vs)
and_value _ _ = none

abbrev pub is_break : ℕ → Bool
is_break c = c == 10 || c == 13

unfoldable pub symbol_values : List ℕ → Option (List ℕ)
unfolding symbol_value
symbol_values [] = some []
symbol_values (c ∷ cs) =
    let rest = symbol_values cs in if is_break c then rest else and_value (symbol_value c) rest

abbrev and_bytes : ℕ → ℕ → ℕ → Option (List ℕ) → Option (List ℕ)
and_bytes a b c none = none
and_bytes a b c (some rest) = some (a ∷ b ∷ c ∷ rest)

unfoldable pub joined : List ℕ → Option (List ℕ)
joined [] = some []
joined (v ∷ []) = none
joined (v ∷ w ∷ []) = some ((v * 4 + w / 16) ∷ [])
joined (v ∷ w ∷ x ∷ []) = some ((v * 4 + w / 16) ∷ (w % 16 * 16 + x / 4) ∷ [])
joined (v ∷ w ∷ x ∷ y ∷ rest) =
    and_bytes (v * 4 + w / 16) (w % 16 * 16 + x / 4) (x % 4 * 64 + y) (joined rest)

abbrev pub then_joined : Option (List ℕ) → Option (List ℕ)
then_joined none = none
then_joined (some vs) = joined vs

-- `DecodeString`.
unfoldable pub decode_text : List ℕ → Option (List ℕ)
unfolding symbol_values joined
decode_text s = then_joined (symbol_values s)

abbrev hex_digit : ℕ → ℕ
hex_digit v = if ltb v 10 then 48 + v else 87 + v

-- `hex.EncodeToString`.
unfoldable pub hex : List ℕ → List ℕ
hex [] = []
hex (b ∷ bs) = hex_digit (b / 16) ∷ hex_digit (b % 16) ∷ hex bs

abbrev pub AreBytes : List ℕ → Type 0
AreBytes = All (λ (b : ℕ). b < 256)

-- None of the bytes is `c`.
abbrev pub Lacks : ℕ → List ℕ → Type 0
Lacks c = All (λ (b : ℕ). (b == c) ≡ false)

symbol-value : (v : ℕ) → v < 64 → symbol_value (symbol v) ≡ some v
unfolding symbol symbol_value
symbol-value v h = ground arith

symbol-plain : (v : ℕ) → v < 64 → is_break (symbol v) ≡ false
unfolding symbol
symbol-plain v h = ground arith

-- A symbol is read back, and what follows it.
symbol_values-symbol :
    (v : ℕ) (s vs : List ℕ)
    → v < 64
    → symbol_values s ≡ some vs
    → symbol_values (symbol v ∷ s) ≡ some (v ∷ vs)
unfolding symbol_values
symbol_values-symbol v s vs h r = rw (symbol-plain v h, symbol-value v h, r) refl

no_symbols : symbol_values [] ≡ some []
unfolding symbol_values
no_symbols = refl

-- The six-bit groups of the bytes.
sextets : List ℕ → List ℕ
sextets [] = []
sextets (a ∷ []) = (a / 4) ∷ (a % 4 * 16) ∷ []
sextets (a ∷ b ∷ []) = (a / 4) ∷ (a % 4 * 16 + b / 16) ∷ (b % 16 * 4) ∷ []
sextets (a ∷ b ∷ c ∷ rest) =
    (a / 4) ∷ (a % 4 * 16 + b / 16) ∷ (b % 16 * 4 + c / 64) ∷ (c % 64) ∷ sextets rest

symbol_values-encode_text :
    (bs : List ℕ) → AreBytes bs → symbol_values (encode_text bs) ≡ some (sextets bs)
unfolding encode_text sextets
symbol_values-encode_text [] p = no_symbols
symbol_values-encode_text (a ∷ []) (p, ps) =
    symbol_values-symbol (a / 4) _ _ (omega arith)
      (symbol_values-symbol (a % 4 * 16) [] [] (omega arith) no_symbols)
symbol_values-encode_text (a ∷ b ∷ []) (p, (q, ps)) =
    symbol_values-symbol (a / 4) _ _ (omega arith) (
      symbol_values-symbol (a % 4 * 16 + b / 16) _ _ (omega arith)
        (symbol_values-symbol (b % 16 * 4) [] [] (omega arith) no_symbols))
symbol_values-encode_text (a ∷ b ∷ c ∷ rest) (p, (q, (r, ps))) =
    symbol_values-symbol (a / 4) _ _ (omega arith) (
      symbol_values-symbol (a % 4 * 16 + b / 16) _ _ (omega arith) (
        symbol_values-symbol (b % 16 * 4 + c / 64) _ _ (omega arith)
          (symbol_values-symbol (c % 64) _ _ (omega arith) (symbol_values-encode_text rest ps))))

joined-sextets : (bs : List ℕ) → AreBytes bs → joined (sextets bs) ≡ some bs
unfolding joined sextets
joined-sextets [] p = refl
joined-sextets (a ∷ []) (p, ps) = ground arith
joined-sextets (a ∷ b ∷ []) (p, (q, ps)) = ground arith
joined-sextets (a ∷ b ∷ c ∷ rest) (p, (q, (r, ps))) = ground (arith, joined-sextets rest ps)

pub decode_text-encode_text : (bs : List ℕ) → AreBytes bs → decode_text (encode_text bs) ≡ some bs
unfolding decode_text
decode_text-encode_text bs p = ap then_joined (symbol_values-encode_text bs p) ∙ joined-sextets bs p

-- The last byte of a cookie's payload that a signature could be mistaken for: hex has no dot.
pub hex-Lacks : (bs : List ℕ) → AreBytes bs → Lacks 46 (hex bs)
unfolding hex
hex-Lacks [] p = tt
hex-Lacks (b ∷ bs) (p, ps) = (ground arith, (ground arith, hex-Lacks bs ps))
