-- ===== src/Prelude/Text.antt =====
-- Texts: Go's `string` as the native `String`. `text` joins two, `str_eq` is Go's `==`.
use Prim.Native.String
use Prim.Native.String.{String}
use mathlib.Core.Path.{◌≡◌, refl}
use mathlib.Core.Logic.{◌↔◌}
use mathlib.Core.Bool.{Bool, true, false}
use mathlib.Core.List.{List, [], ◌∷◌, ◌++◌}
use mathlib.Core.Option.{Option, none, some}
use native.Mathlib.Omega.{arith}
use text.Mathlib.Text.{◌==◌}
use text.Mathlib.TextEquality.{eq_iff}

abbrev pub str_eq : String → String → Bool
str_eq s t = s == t

pub str_eq_iff : (s t : String) → (str_eq s t ≡ true) ↔ (s ≡ t)
str_eq_iff s t = eq_iff s t

pub str_eq_refl : (s : String) → str_eq s s ≡ true
str_eq_refl s = (eq_iff s s).1 refl

infixr 66 ◌<>◌
abbrev pub ◌<>◌ : String → String → String
s <> t = String.◌++◌ s t

-- `slices.Contains`, and the program's own loops of that shape.
unfoldable pub contains : List String → String → Bool
contains [] x = false
contains (v ∷ xs) x = elim (str_eq v x) [ true ↦ true | false ↦ contains xs x ]

-- A map with text keys, as the list of its entries; a missing key is `none`.
module _ {ℓ} {V : Type ℓ} where
  unfoldable pub lookup : String → List (String × V) → Option V
  lookup k [] = none
  lookup k ((j, v) ∷ m) = elim (str_eq j k) [ true ↦ some v | false ↦ lookup k m ]

  unfoldable pub insert : String → V → List (String × V) → List (String × V)
  insert k v [] = (k, v) ∷ []
  insert k v ((j, w) ∷ m) = elim (str_eq j k) [ true ↦ (j, v) ∷ m | false ↦ (j, w) ∷ insert k v m ]

  unfoldable pub delete : String → List (String × V) → List (String × V)
  delete k [] = []
  delete k ((j, w) ∷ m) = elim (str_eq j k) [ true ↦ delete k m | false ↦ (j, w) ∷ delete k m ]

  pub lookup-insert :
      (k j : String) (v : V) (m : List (String × V))
      → lookup j (insert k v m) ≡ (elim (str_eq k j) [ true ↦ some v | false ↦ lookup j m ])
  unfolding lookup insert
  lookup-insert k j v [] = refl
  lookup-insert k j v ((i, w) ∷ m) =
      ground (arith, eq_iff k j, eq_iff i k, eq_iff i j, lookup-insert k j v m)

  pub lookup-delete :
      (k j : String) (m : List (String × V))
      → lookup j (delete k m) ≡ (elim (str_eq k j) [ true ↦ none | false ↦ lookup j m ])
  unfolding lookup delete
  lookup-delete k j [] = ground arith
  lookup-delete k j ((i, w) ∷ m) =
      ground (arith, eq_iff k j, eq_iff i k, eq_iff i j, lookup-delete k j m)

pub contains-append :
    (xs ys : List String) (x : String)
    → contains (xs ++ ys) x ≡ (elim (contains xs x) [ true ↦ true | false ↦ contains ys x ])
unfolding contains
contains-append [] ys x = refl
contains-append (v ∷ xs) ys x = ground (arith, contains-append xs ys x)

-- No text is there twice.
abbrev pub IsDistinct : List String → Type 0
IsDistinct [] = Unit
IsDistinct (x ∷ xs) = (contains xs x ≡ false) × IsDistinct xs

pub IsDistinct-append :
    (xs : List String) (x : String)
    → IsDistinct xs
    → contains xs x ≡ false
    → IsDistinct (xs ++ x ∷ [])
unfolding contains
IsDistinct-append [] x d h = (refl, tt)
IsDistinct-append (v ∷ xs) x (n, d) h = (
  ground (arith, contains-append xs (x ∷ []) v, eq_iff x v, eq_iff v x),
  IsDistinct-append xs x d (ground arith),
)

pub contains_last : (xs : List String) (x : String) → contains (xs ++ x ∷ []) x ≡ true
unfolding contains
contains_last [] x = ground (arith, eq_iff x x)
contains_last (v ∷ xs) x = ground (arith, contains_last xs x)
