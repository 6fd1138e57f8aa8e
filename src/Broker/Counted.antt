-- ===== src/Broker/Counted.antt =====
-- backend/internal/infra/sse/broker.go: how often a channel is among the clients.
use posserver.Prelude.{
  ℕ, suc, ◌+◌, ◌≤◌, ◌≡◌, refl, List, [], ◌∷◌, ◌++◌, arith, ltb, ◌==◌, if◌then◌else◌,
}
use posserver.Broker.{Scope, has, subscribers, join, without, leave}

unfoldable pub count_in : ℕ → List ℕ → ℕ
count_in c [] = 0
count_in c (d ∷ ds) = if d == c then suc (count_in c ds) else count_in c ds

unfoldable pub count : ℕ → List (Scope × List ℕ) → ℕ
count c [] = 0
count c ((s, set) ∷ m) = count_in c set + count c m

count_in-append : (c : ℕ) (xs ys : List ℕ) → count_in c (xs ++ ys) ≡ count_in c xs + count_in c ys
unfolding count_in
count_in-append c [] ys = omega arith
count_in-append c (x ∷ xs) ys = ground (arith, count_in-append c xs ys)

pub has-count_in : (c : ℕ) (xs : List ℕ) → has xs c ≡ ltb 0 (count_in c xs)
unfolding has count_in
has-count_in c [] = refl
has-count_in c (x ∷ xs) = ground (arith, has-count_in c xs)

pub count-join :
    (c d : ℕ) (s : Scope) (m : List (Scope × List ℕ))
    → count c (join s d m) ≡ count c m + (if d == c then 1 else 0)
unfolding count join count_in
count-join c d s [] = ground arith
count-join c d s ((t, set) ∷ m) = ground (arith, count-join c d s m, count_in-append c set (d ∷ []))

count_in-without : (c d : ℕ) (xs : List ℕ) → count_in c (without d xs) ≤ count_in c xs
unfolding without count_in
count_in-without c d [] = omega arith
count_in-without c d (x ∷ xs) = ground (arith, count_in-without c d xs)

count_in-without_self : (c : ℕ) (xs : List ℕ) → count_in c (without c xs) ≡ 0
unfolding without count_in
count_in-without_self c [] = refl
count_in-without_self c (x ∷ xs) = ground (arith, count_in-without_self c xs)

pub count-leave :
    (c d : ℕ) (s : Scope) (m : List (Scope × List ℕ)) → count c (leave s d m) ≤ count c m
unfolding count leave
count-leave c d s [] = omega arith
count-leave c d s ((t, set) ∷ m) = ground (arith, count-leave c d s m, count_in-without c d set)

pub count-leave_self :
    (c : ℕ) (s : Scope) (m : List (Scope × List ℕ))
    → count c (leave s c m) + count_in c (subscribers s m) ≡ count c m
unfolding count leave subscribers count_in
count-leave_self c s [] = refl
count-leave_self c s ((t, set) ∷ m) =
    ground (arith, count-leave_self c s m, count_in-without_self c set)

pub count_in-subscribers :
    (c : ℕ) (s : Scope) (m : List (Scope × List ℕ)) → count_in c (subscribers s m) ≤ count c m
unfolding count subscribers count_in
count_in-subscribers c s [] = omega arith
count_in-subscribers c s ((t, set) ∷ m) = ground (arith, count_in-subscribers c s m)
