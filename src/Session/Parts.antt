-- ===== src/Session/Parts.antt =====
-- What backend/internal/transport/session/session.go uses of Go's strings and crypto/subtle, over bytes:
-- `LastIndexByte` with the two parts around it, `Split` by one byte, `ContainsRune` of a bar, and
-- `ConstantTimeCompare`.
use posserver.Prelude.{
  ℕ, ◌≡◌, refl, Bool, true, false, ◌&&◌, ◌||◌, Option, none, some, List, [], ◌∷◌, ◌++◌, arith, ◌==◌,
  if◌then◌else◌,
}
use posserver.Session.Base64.{Lacks}

unfoldable pub bytes_eq : List ℕ → List ℕ → Bool
bytes_eq [] [] = true
bytes_eq [] (d ∷ ds) = false
bytes_eq (c ∷ cs) [] = false
bytes_eq (c ∷ cs) (d ∷ ds) = c == d && bytes_eq cs ds

abbrev behind : ℕ → ℕ → List ℕ → Option (List ℕ × List ℕ) → Option (List ℕ × List ℕ)
behind sep c s none = if c == sep then some ([], s) else none
behind sep c s (some (before, after)) = some (c ∷ before, after)

-- The parts before and after the last separator.
unfoldable pub cut_last : ℕ → List ℕ → Option (List ℕ × List ℕ)
cut_last sep [] = none
cut_last sep (c ∷ s) = behind sep c s (cut_last sep s)

abbrev first_part : ℕ → List (List ℕ) → List (List ℕ)
first_part c [] = (c ∷ []) ∷ []
first_part c (p ∷ ps) = (c ∷ p) ∷ ps

unfoldable pub split : ℕ → List ℕ → List (List ℕ)
split sep [] = [] ∷ []
split sep (c ∷ s) = let rest = split sep s in if c == sep then [] ∷ rest else first_part c rest

unfoldable pub is_bar : List ℕ → Bool
is_bar [] = false
is_bar (c ∷ s) = c == 124 || is_bar s

pub bytes_eq_refl : (s : List ℕ) → bytes_eq s s ≡ true
unfolding bytes_eq
bytes_eq_refl [] = refl
bytes_eq_refl (c ∷ s) = ground (arith, bytes_eq_refl s)

pub bytes_eq_sound : (s t : List ℕ) → bytes_eq s t ≡ true → s ≡ t
unfolding bytes_eq
bytes_eq_sound [] [] h = refl
bytes_eq_sound [] (d ∷ t) h = ground arith
bytes_eq_sound (c ∷ s) [] h = ground arith
bytes_eq_sound (c ∷ s) (d ∷ t) h = ground (arith, bytes_eq_sound s t)

cut_last-none : (sep : ℕ) (s : List ℕ) → Lacks sep s → cut_last sep s ≡ none
unfolding cut_last
cut_last-none sep [] p = refl
cut_last-none sep (c ∷ s) (p, ps) = rw (cut_last-none sep s ps, p) refl

-- A text without the separator, put behind one, is cut off again.
pub cut_last-append :
    (sep : ℕ) (s t : List ℕ) → Lacks sep t → cut_last sep (s ++ sep ∷ t) ≡ some (s, t)
unfolding cut_last
cut_last-append sep [] t p = rw (cut_last-none sep t p) (ground arith)
cut_last-append sep (c ∷ s) t p = rw (cut_last-append sep s t p) refl

behind_sound :
    (sep c : ℕ) (v : List ℕ) (o : Option (List ℕ × List ℕ)) (s t : List ℕ)
    → ((a b : List ℕ) → o ≡ some (a, b) → v ≡ a ++ sep ∷ b)
    → behind sep c v o ≡ some (s, t)
    → c ∷ v ≡ s ++ sep ∷ t
behind_sound sep c v none [] t f h = ground (arith, h)
behind_sound sep c v none (x ∷ s) t f h = ground (arith, h)
behind_sound sep c v (some (a, b)) [] t f h = ground (arith, h)
behind_sound sep c v (some (a, b)) (x ∷ s) t f h = ground (arith, h, f s t)

pub cut_last_sound : (sep : ℕ) (v s t : List ℕ) → cut_last sep v ≡ some (s, t) → v ≡ s ++ sep ∷ t
unfolding cut_last
cut_last_sound sep [] s t h = ground (arith, h)
cut_last_sound sep (c ∷ v) s t h =
    behind_sound sep c v (cut_last sep v) s t (cut_last_sound sep v) h

pub split-last : (sep : ℕ) (s : List ℕ) → Lacks sep s → split sep s ≡ s ∷ []
unfolding split
split-last sep [] p = refl
split-last sep (c ∷ s) (p, ps) = rw (split-last sep s ps, p) refl

pub split-append :
    (sep : ℕ) (s t : List ℕ) → Lacks sep s → split sep (s ++ sep ∷ t) ≡ s ∷ split sep t
unfolding split
split-append sep [] t p = ground arith
split-append sep (c ∷ s) t (p, ps) = rw (split-append sep s t ps, p) refl

pub is_bar-Lacks : (s : List ℕ) → is_bar s ≡ false → Lacks 124 s
unfolding is_bar
is_bar-Lacks [] h = tt
is_bar-Lacks (c ∷ s) h = (ground arith, is_bar-Lacks s (ground arith))
