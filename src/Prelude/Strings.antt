-- ===== src/Prelude/Strings.antt =====
-- What the program uses of Go's `strings`, `strconv` and `time.Parse("15:04")`, over code points.
-- Letter case outside ASCII comes from Unicode's tables, which are a parameter.
use Prim.Native.Char.{Char, code}
use posserver.Prelude.Tests.{ltb, leb, ◌==◌, if◌then◌else◌}
use posserver.Prelude.Text.{◌<>◌}
use Prim.Native.Nat.{ℕ, zero, suc, ◌+◌, ◌-◌, ◌*◌, ◌/◌, ◌%◌}
use Prim.Native.String.{String}
use mathlib.Core.Bool.{Bool, true, false, ◌&&◌, ◌||◌}
use mathlib.Core.Option.{Option, none, some}
use mathlib.Core.Path.{◌≡◌, refl}
use mathlib.Core.List.{List, [], ◌∷◌}

abbrev pub codes : String → List ℕ
codes String.[] = []
codes (String.◌∷◌ c s) = code c ∷ codes s

-- `unicode.IsSpace`.
unfoldable pub is_space : ℕ → Bool
is_space c =
    (leb 9 c && leb c 13)
    || c == 32
    || c == 0x85
    || c == 0xa0
    || c == 0x1680
    || (leb 0x2000 c && leb c 0x200a)
    || c == 0x2028
    || c == 0x2029
    || c == 0x202f
    || c == 0x205f
    || c == 0x3000

unfoldable pub trim_left : String → String
unfolding is_space
trim_left String.[] = String.[]
trim_left (String.◌∷◌ c s) = elim (is_space (code c)) [
  | true ↦ trim_left s
  | false ↦ String.◌∷◌ c s
]

unfoldable pub trim_right : String → String
unfolding is_space
trim_right String.[] = String.[]
trim_right (String.◌∷◌ c s) = keep (trim_right s)
  where
    keep : String → String
    keep String.[] = if is_space (code c) then String.[] else String.◌∷◌ c String.[]
    keep (String.◌∷◌ d t) = String.◌∷◌ c (String.◌∷◌ d t)

-- `strings.TrimSpace`.
unfoldable pub trim_space : String → String
unfolding trim_left trim_right
trim_space s = trim_right (trim_left s)

-- The letters outside ASCII, as Unicode's tables map them.
pub record CaseTables : Type 0 where
  pub upper : Char → Char
  pub lower : Char → Char

-- The character of `to` at the place where `from` has `c`, else `c`.
unfoldable pub translate : String → String → Char → Char
translate (String.◌∷◌ a from) (String.◌∷◌ b to) c = elim (code a == code c) [
  | true ↦ b
  | false ↦ translate from to c
]
translate _ _ c = c

abbrev pub lower_letters : String
lower_letters = "abcdefghijklmnopqrstuvwxyz"

abbrev pub upper_letters : String
upper_letters = "ABCDEFGHIJKLMNOPQRSTUVWXYZ"

unfoldable pub map_chars : (Char → Char) → String → String
map_chars f String.[] = String.[]
map_chars f (String.◌∷◌ c s) = String.◌∷◌ (f c) (map_chars f s)

-- `strings.ToUpper`.
unfoldable pub to_upper : CaseTables → String → String
unfolding translate map_chars
to_upper t =
    map_chars (λ c. if ltb (code c) 128 then translate lower_letters upper_letters c else t.upper c)

-- `strings.ToLower`.
unfoldable pub to_lower : CaseTables → String → String
unfolding translate map_chars
to_lower t =
    map_chars (λ c. if ltb (code c) 128 then translate upper_letters lower_letters c else t.lower c)

unfoldable pub digit_text : ℕ → String
digit_text d =
    if d == 0
    then "0"
    else if d == 1
    then "1"
    else if d == 2
    then "2"
    else if d == 3
    then "3"
    else if d == 4
    then "4"
    else if d == 5
    then "5"
    else if d == 6
    then "6"
    else if d == 7
    then "7"
    else if d == 8
    then "8"
    else "9"

-- The decimal digits of `n`, in front of `rest`, with at most `fuel` of them.
unfoldable pub digits : ℕ → ℕ → String → String
unfolding digit_text
digits zero n rest = rest
digits (suc fuel) n rest =
    let more = digits fuel (n / 10) (digit_text (n % 10) <> rest) in
    if ltb n 10 then digit_text n <> rest else more

-- `strconv.Itoa` of a natural number: `n + 1` digits are more than enough.
unfoldable pub itoa : ℕ → String
unfolding digits
itoa n = digits (suc n) n ""

abbrev is_digit : ℕ → Bool
is_digit c = leb 48 c && leb c 57

-- `getnum` of Go's `time`: one digit or two; `fixed` wants two.
unfoldable pub get_num : List ℕ → Bool → Option (ℕ × List ℕ)
get_num [] fixed = none
get_num (a ∷ []) fixed =
    if is_digit a && (if fixed then false else true) then some (a - 48, []) else none
get_num (a ∷ b ∷ rest) fixed =
    if is_digit a
    then (if is_digit b
        then some ((a - 48) * 10 + (b - 48), rest)
        else if fixed
        then none
        else some (a - 48, b ∷ rest))
    else none

unfoldable pub minutes_after : ℕ → Option (ℕ × List ℕ) → Option ℕ
minutes_after h none = none
minutes_after h (some (m, [])) = if ltb h 24 && ltb m 60 then some (h * 60 + m) else none
minutes_after h (some (m, c ∷ rest)) = none

unfoldable pub after_hour : Option (ℕ × List ℕ) → Option ℕ
unfolding minutes_after get_num
after_hour none = none
after_hour (some (h, [])) = none
after_hour (some (h, c ∷ rest)) = if c == 58 then minutes_after h (get_num rest true) else none

-- `time.Parse("15:04", s)` as minutes of the day; `none` is its error.
unfoldable pub parse_clock : String → Option ℕ
unfolding after_hour get_num
parse_clock s = after_hour (get_num (codes s) false)

clock_texts :
    (parse_clock "9:05" ≡ some 545)
    × (parse_clock "22:00" ≡ some 1320)
    × (parse_clock "24:00" ≡ none)
    × (parse_clock "9:5" ≡ none)
    × (trim_space "  a b " ≡ "a b")
    × (itoa 1205 ≡ "1205")
unfolding parse_clock trim_space itoa
clock_texts = (refl, refl, refl, refl, refl, refl)
