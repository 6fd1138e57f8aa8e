-- ===== src/RateLimit/Examples.antt =====
-- backend/internal/shared/ratelimit/ratelimit.go: two failed logins, a minute apart, and two at a time.
use posserver.Prelude.{
  ℕ, ◌+◌, ◌≤◌, String, ◌≡◌, refl, ◌↔◌, true, false, some, [], ◌∷◌, arith, ltb, length, lookup,
  insert, delete,
}
use posserver.RateLimit.{prune_keys, Window, new, hits_of, keep, prune, allow_n, retry_after_n, add}
use posserver.RateLimit.Log.{Log, logged, Run, opened, added, allow_n-log}
use posserver.RateLimit.Retry.{retry_after_n-exact}
use posserver.RateLimit.Sorted.{Run-IsSorted}
use posserver.RateLimit.Limited.{
  Between, none_between, one_in, one_out, Callers, begun, let_in, counted, Callers-during,
}
use posserver.RateLimit.Spans.{during}

-- One event in 100.
abbrev start : Window
start = new 1 100

abbrev failed : Window
failed = add "ann" 10 start

abbrev failures : Log
failures = ("ann", 10) ∷ []

run : Run 1 100 failed failures 10
run = added "ann" 10 (omega arith) opened

is_refused : (allow_n "ann" 1 60 failed).0 ≡ false
unfolding allow_n prune add prune_keys new hits_of keep lookup insert delete
is_refused = refl

allow_n-log_example :
    (allow_n "ann" 1 60 failed).0 ≡ ltb (length (keep 60 100 (logged "ann" failures))) 1
allow_n-log_example = allow_n-log "ann" 1 60 (omega arith) run

retry_after_n-exact_example :
    let r = retry_after_n "ann" 1 60 failed in
    (wait : ℕ) × (r.0 ≡ some wait)
    × ((later : ℕ) → 60 ≤ later → ((allow_n "ann" 1 later r.1).0 ≡ true) ↔ (60 + wait ≤ later))
retry_after_n-exact_example =
    retry_after_n-exact "ann" 1 60 failed (omega arith) (Run-IsSorted "ann" run)

abbrev limit : String → ℕ
limit key = 1

-- Both are let in before one of them adds its event: one more than the limit.
abbrev asked_twice : Window
asked_twice = (allow_n "ann" 1 20 (allow_n "ann" 1 10 start).1).1

is_let_in : (allow_n "ann" 1 10 start).0 ≡ true
unfolding allow_n prune new hits_of keep lookup
is_let_in = refl

is_let_in_too : (allow_n "ann" 1 20 (allow_n "ann" 1 10 start).1).0 ≡ true
unfolding allow_n prune new hits_of keep lookup insert delete
is_let_in_too = refl

abbrev both : Log
both = ("ann", 30) ∷ ("ann", 40) ∷ []

abbrev between : Between
between = one_out "ann" (one_out "ann" (one_in "ann" (one_in "ann" none_between)))

overlapped : Callers limit 1 1 100 (add "ann" 40 (add "ann" 30 asked_twice)) both between 40
overlapped = counted "ann" 40 (omega arith) (omega arith) (
    counted "ann" 30 (omega arith) (omega arith) (
      let_in "ann" 20 (omega arith) is_let_in_too (omega arith)
        (let_in "ann" 10 (omega arith) is_let_in (omega arith) begun)))

Callers-during_example : length (during 5 100 (logged "ann" both)) ≤ 1 + 1
Callers-during_example = Callers-during "ann" 5 overlapped

above_limit : length (during 5 100 (logged "ann" both)) ≡ 2
unfolding during logged
above_limit = refl
