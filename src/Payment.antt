-- ===== src/Payment.antt =====
-- backend/internal/domain/payment/payment.go: the gateways, cash and the test card.
pub mod Charged
mod Examples
use posserver.Prelude.{
  IsIn, IsIn-All, contains_last, All, All-append, All-weaken, contains-append, IsDistinct,
  IsDistinct-append, ℕ, zero, suc, ◌+◌, ◌-◌, ◌*◌, ◌/◌, ◌%◌, ◌^◌, ◌≤◌, ◌<◌, min, max, String, ◌≡◌,
  refl, sym, ap, ◌∙◌, ◌≢◌, ◌↔◌, ◌⊎◌, inl, inr, Bool, true, false, not, ◌&&◌, ◌||◌, Option, none,
  some, List, [], ◌∷◌, ◌++◌, map, arith, ltb, leb, ◌==◌, if◌then◌else◌, ltb→lt, lt→ltb, leb→le,
  ==_iff, tests, Bool-cases, Option-cases, length, get_elem?, take, drop, replicate, str_eq,
  str_eq_iff, str_eq_refl, ◌<>◌, contains, lookup, insert, delete, lookup-insert, lookup-delete,
}
use posserver.Prelude.Int.{
  ℤ, pos, negsuc, pos_part, neg_part, sub_ℕ, ◌+ℤ◌, ◌-ℤ◌, ◌*ℤ◌, ◌≤ℤ◌, ltb_ℤ, leb_ℤ, eq_ℤ, neg_ℤ,
  quot_ℤ, ◌<ℤ◌, +ℤ_parts, -ℤ_parts, eq_of_parts, int_laws, sum_ℤ, parts_of_eq, neg_ℤ_parts,
}
use posserver.Prelude.Strings.{codes}

pub record Charge : Type 0 where
  pub amount_cents : ℤ
  pub token : String
  pub idempotency_key : String

pub record Receipt : Type 0 where
  pub gateway : String
  pub ref : String
  pub status : String
  pub last4 : String
  pub auth_code : String

-- What `Charge` returns.
pub data Outcome : Type 0 where
  charged : Receipt → Outcome
  declined bad_token : Outcome

-- `Cash.Charge`.
abbrev pub charge_cash : Charge → Outcome
charge_cash c =
    charged (record { gateway = "cash"; ref = ""; status = "pending"; last4 = ""; auth_code = "" })

pub record TestCard : Type 0 where
  pub charges : List (String × Receipt)
  pub refunds : List (String × ℤ)

-- `NewTestCard`.
abbrev pub new_test_card : TestCard
new_test_card = record { charges = []; refunds = [] }

-- `strings.HasPrefix`, over code points.
unfoldable pub has_prefix : List ℕ → List ℕ → Bool
has_prefix s [] = true
has_prefix [] (d ∷ ds) = false
has_prefix (c ∷ s) (d ∷ ds) = c == d && has_prefix s ds

unfoldable pub is_approved : String → Bool
unfolding has_prefix
is_approved token = str_eq token "tok_visa" || has_prefix (codes token) (codes "tok_ok_")

abbrev pub receipt : Charge → Receipt
receipt c = record {
  gateway = "testcard";
  ref = "tc_" <> c.idempotency_key;
  status = "captured";
  last4 = "4242";
  auth_code = "TEST01";
}

abbrev remember : Charge → TestCard → TestCard
remember c t =
    if str_eq c.idempotency_key ""
    then t
    else record t { charges = insert c.idempotency_key (receipt c) t.charges }

unfoldable pub charge_new : TestCard → Charge → TestCard × Outcome
unfolding is_approved insert
charge_new t c =
    if str_eq c.token "tok_decline"
    then (t, declined)
    else if is_approved c.token
    then (remember c t, charged (receipt c))
    else (t, bad_token)

abbrev pub charge_known : TestCard → Charge → Option Receipt → TestCard × Outcome
charge_known t c none = charge_new t c
charge_known t c (some r) = if str_eq c.idempotency_key "" then charge_new t c else (t, charged r)

-- `TestCard.Charge`.
unfoldable pub charge : TestCard → Charge → TestCard × Outcome
unfolding charge_new lookup
charge t c = charge_known t c (lookup c.idempotency_key t.charges)

abbrev or_zero : Option ℤ → ℤ
or_zero none = pos 0
or_zero (some n) = n

-- `TestCard.Refunded`.
unfoldable pub refunded : TestCard → String → ℤ
unfolding lookup
refunded t ref = or_zero (lookup ref t.refunds)

-- `TestCard.Refund`.
unfoldable pub refund : TestCard → String → ℤ → TestCard
unfolding refunded insert
refund t ref cents = record t { refunds = insert ref (refunded t ref +ℤ cents) t.refunds }

pub data Call : Type 0 where
  charges : Charge → Call
  refunds : String → ℤ → Call

unfoldable pub call : TestCard → Call → TestCard
unfolding charge refund
call t (charges c) = (charge t c).0
call t (refunds ref cents) = refund t ref cents

unfoldable pub calls : TestCard → List Call → TestCard
unfolding call
calls t [] = t
calls t (c ∷ cs) = calls (call t c) cs
