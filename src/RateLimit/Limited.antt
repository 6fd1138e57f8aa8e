-- ===== src/RateLimit/Limited.antt =====
-- backend/internal/shared/ratelimit/ratelimit.go: callers that ask with `AllowN` and add with
-- `Add`, two calls that other callers can come between (backend/internal/app/geo/search.go,
-- backend/internal/app/agentsync/link.go, backend/internal/transport/handler/alerts.go).
use posserver.Prelude.{
  ℕ, ◌+◌, ◌-◌, ◌≤◌, ◌<◌, String, ◌≡◌, inl, inr, true, false, [], ◌∷◌, ◌++◌, arith, if◌then◌else◌,
  Bool-cases, length, str_eq, str_eq_iff,
}
use posserver.Order.Types.{Time}
use posserver.RateLimit.{Window, new, keep, allow_n, add, retry_after_n, reset}
use posserver.RateLimit.Entries.{append_nil}
use posserver.RateLimit.Log.{
  Log, logged, forget, Run, opened, asked, added, waited, allow_n-log, logged-append, logged-forget,
}
use posserver.RateLimit.Spans.{
  during, IsBelow, later-IsBelow, fewer-IsBelow, added-IsBelow, none-IsBelow, let_in-IsBelow,
}

-- How many callers of each key `AllowN` has let in that have not called `Add` yet.
abbrev pub Between : Type 0
Between = String → ℕ

abbrev pub none_between : Between
none_between k = 0

abbrev pub one_in : String → Between → Between
one_in key f k = if str_eq key k then f k + 1 else f k

abbrev pub one_out : String → Between → Between
one_out key f k = if str_eq key k then f k - 1 else f k

-- Callers of a window, interleaved. Each call reads the clock for itself. A caller is let in while
-- at most `others` others of its key are between the two calls; it adds its event, or it returns without.
pub data Callers (limit : String → ℕ) (others max span : ℕ)
    : Window → Log → Between → Time → Type 0 where
  begun : Callers limit others max span (new max span) [] none_between 0
  refused :
      {w : Window} {log : Log} {f : Between} {t : Time} (key : String) (now : Time)
      → t ≤ now
      → (allow_n key (limit key) now w).0 ≡ false
      → Callers limit others max span w log f t
      → Callers limit others max span (allow_n key (limit key) now w).1 log f now
  let_in :
      {w : Window} {log : Log} {f : Between} {t : Time} (key : String) (now : Time)
      → t ≤ now
      → (allow_n key (limit key) now w).0 ≡ true
      → f key ≤ others
      → Callers limit others max span w log f t
      → Callers limit others max span (allow_n key (limit key) now w).1 log (one_in key f) now
  counted :
      {w : Window} {log : Log} {f : Between} {t : Time} (key : String) (now : Time)
      → t ≤ now
      → 0 < f key
      → Callers limit others max span w log f t
      → Callers limit others max span (add key now w) (log ++ (key, now) ∷ []) (one_out key f) now
  returned :
      {w : Window} {log : Log} {f : Between} {t : Time} (key : String)
      → Callers limit others max span w log f t
      → Callers limit others max span w log (one_out key f) t
  told :
      {w : Window} {log : Log} {f : Between} {t : Time} (key : String) (now : Time)
      → t ≤ now
      → Callers limit others max span w log f t
      → Callers limit others max span (retry_after_n key (limit key) now w).1 log f now
  forgot :
      {w : Window} {log : Log} {f : Between} {t : Time} (key : String)
      → Callers limit others max span w log f t
      → Callers limit others max span (reset key w) (forget key log) f t

module _ {limit : String → ℕ} {others max span : ℕ} where
  Callers-Run :
      {w : Window} {log : Log} {f : Between} {t : Time}
      → Callers limit others max span w log f t
      → Run max span w log t
  Callers-Run begun = opened
  Callers-Run (refused key now h a l) = asked key (limit key) now h (Callers-Run l)
  Callers-Run (let_in key now h a q l) = asked key (limit key) now h (Callers-Run l)
  Callers-Run (counted key now h q l) = added key now h (Callers-Run l)
  Callers-Run (returned key l) = Callers-Run l
  Callers-Run (told key now h l) = waited key (limit key) now h (Callers-Run l)
  Callers-Run (forgot key l) = Run.forgot key (Callers-Run l)

module _ {limit : String → ℕ} {others max span : ℕ} (key : String) where
  Callers-IsBelow :
      {w : Window} {log : Log} {f : Between} {t : Time}
      → Callers limit others max span w log f t
      → IsBelow (limit key + others) span (logged key log) (f key) t
  unfolding logged during keep
  Callers-IsBelow begun = record { kept = λ later l. omega arith; spans = λ start. omega arith }
  Callers-IsBelow (refused {log = log} k now h a l) =
      later-IsBelow (logged key log) (Callers-IsBelow l) now h
  Callers-IsBelow (told {log = log} k now h l) =
      later-IsBelow (logged key log) (Callers-IsBelow l) now h
  Callers-IsBelow (let_in {log = log} {f} k now h a q l) = elim (Bool-cases (str_eq k key)) [
    | inl e ↦
        let same = (str_eq_iff k key).0 e in
        rw (e, ← same)
          (let_in-IsBelow (logged k log) now h
            (ground (arith, allow_n-log k (limit k) now h (Callers-Run l))) q
            (rw same (Callers-IsBelow l)))
    | inr e ↦ rw e (later-IsBelow (logged key log) (Callers-IsBelow l) now h)
  ]
  Callers-IsBelow (returned {log = log} {f} k l) = elim (Bool-cases (str_eq k key)) [
    | inl e ↦ rw e (fewer-IsBelow (logged key log) (Callers-IsBelow l))
    | inr e ↦ rw e (Callers-IsBelow l)
  ]
  Callers-IsBelow (forgot {log = log} k l) =
      rw (logged-forget key k log) (elim (Bool-cases (str_eq k key)) [
        | inl e ↦ rw e (none-IsBelow (logged key log) (Callers-IsBelow l))
        | inr e ↦ rw e (Callers-IsBelow l)
      ])
  Callers-IsBelow (counted {log = log} {f} k now h q l) =
      rw (logged-append key k log now) (elim (Bool-cases (str_eq k key)) [
        | inl e ↦ rw e (
            added-IsBelow (logged key log) (Callers-IsBelow l) now h
              (rw (← (str_eq_iff k key).0 e) q))
        | inr e ↦
            rw (e, append_nil (logged key log))
              (later-IsBelow (logged key log) (Callers-IsBelow l) now h)
      ])

-- Callers ask with `AllowN` and add with `Add`, two calls at two times, and other callers come between.
-- Where a caller is let in only while at most `others` others of its key have been let in and have not
-- added their event yet, every span of time has at most the key's limit and `others` more of the events
-- added since the key was last reset, wherever the span starts: at most the limit where the callers of
-- a key do not overlap.
pub Callers-during :
    {limit : String → ℕ} {others max span : ℕ} {w : Window} {log : Log} {f : Between} {t : Time}
    (key : String) (start : Time)
    → Callers limit others max span w log f t
    → length (during start span (logged key log)) ≤ limit key + others
Callers-during key start l = (Callers-IsBelow key l).spans start
