-- ===== src/Payment/Charged.antt =====
-- backend/internal/domain/payment/payment.go, `TestCard`: the same key never charges twice.
use posserver.Prelude.{
  String, ◌≡◌, refl, ap, ◌∙◌, inl, inr, true, false, Option, none, some, List, [], ◌∷◌, arith,
  Bool-cases, str_eq, str_eq_iff, str_eq_refl, lookup, lookup-insert,
}
use posserver.Payment.{
  Charge, Receipt, TestCard, charged, receipt, charge_new, charge_known, charge, refund, Call,
  charges, refunds, call, calls,
}

charge_new-lookup :
    (t : TestCard) (c : Charge) (key : String) (r : Receipt)
    → (str_eq c.idempotency_key key ≡ true → str_eq key "" ≡ true)
    → lookup key t.charges ≡ some r
    → lookup key (charge_new t c).0.charges ≡ some r
unfolding charge_new
charge_new-lookup t c key r n h = ground (
  arith,
  lookup-insert c.idempotency_key key (receipt c) t.charges,
  str_eq_iff c.idempotency_key key,
  str_eq_iff c.idempotency_key "",
  str_eq_iff key "",
  h,
)

known-lookup :
    (t : TestCard) (c : Charge) (o : Option Receipt) (key : String) (r : Receipt)
    → lookup c.idempotency_key t.charges ≡ o
    → str_eq key "" ≡ false
    → lookup key t.charges ≡ some r
    → lookup key (charge_known t c o).0.charges ≡ some r
known-lookup t c none key r o n h =
    charge_new-lookup t c key r
      (λ same.
        let e = ap (λ k. lookup k t.charges) ((str_eq_iff c.idempotency_key key).0 same) in
        absurd (ground (arith, e, o, h)))
      h
known-lookup t c (some r') key r o n h = elim (Bool-cases (str_eq c.idempotency_key "")) [
  | inl empty ↦ rw empty (
      charge_new-lookup t c key r
        (λ same. absurd (
          ground (
            arith,
            n,
            empty,
            str_eq_iff c.idempotency_key key,
            str_eq_iff c.idempotency_key "",
            str_eq_iff key "",
            same,
          )))
        h)
  | inr named ↦ rw named h
]

call-lookup :
    (t : TestCard) (c : Call) (key : String) (r : Receipt)
    → str_eq key "" ≡ false
    → lookup key t.charges ≡ some r
    → lookup key (call t c).charges ≡ some r
unfolding call charge refund
call-lookup t (charges c) key r n h =
    known-lookup t c (lookup c.idempotency_key t.charges) key r refl n h
call-lookup t (refunds ref cents) key r n h = h

calls-lookup :
    (t : TestCard) (cs : List Call) (key : String) (r : Receipt)
    → str_eq key "" ≡ false
    → lookup key t.charges ≡ some r
    → lookup key (calls t cs).charges ≡ some r
unfolding calls
calls-lookup t [] key r n h = h
calls-lookup t (c ∷ cs) key r n h = calls-lookup (call t c) cs key r n (call-lookup t c key r n h)

charged_known-lookup :
    (t : TestCard) (c : Charge) (o : Option Receipt) (r : Receipt)
    → lookup c.idempotency_key t.charges ≡ o
    → str_eq c.idempotency_key "" ≡ false
    → (charge_known t c o).1 ≡ charged r
    → lookup c.idempotency_key (charge_known t c o).0.charges ≡ some r
unfolding charge_new
charged_known-lookup t c none r o n h = ground (
  arith,
  lookup-insert c.idempotency_key c.idempotency_key (receipt c) t.charges,
  str_eq_refl c.idempotency_key,
  h,
  n,
)
charged_known-lookup t c (some r') r o n h = ground (arith, o, n, h)

-- A charge that was made is never made again: after any calls, a charge with its key, whatever amount and
-- token it names, changes nothing and returns the same receipt, unless the key is empty.
pub charge-calls :
    (t : TestCard) (c d : Charge) (cs : List Call) (r : Receipt)
    → str_eq c.idempotency_key "" ≡ false
    → (charge t c).1 ≡ charged r
    → d.idempotency_key ≡ c.idempotency_key
    → charge (calls (charge t c).0 cs) d ≡ (calls (charge t c).0 cs, charged r)
unfolding charge
charge-calls t c d cs r n h e =
    let t' = calls (charge t c).0 cs in
    let kept : lookup c.idempotency_key t'.charges ≡ some r =
      calls-lookup (charge t c).0 cs c.idempotency_key r n
        (charged_known-lookup t c (lookup c.idempotency_key t.charges) r refl n h) in
    let found = ap (λ k. lookup k t'.charges) e ∙ kept in
    let named = ap (λ k. str_eq k "") e ∙ n in ap (charge_known t' d) found ∙ (rw named refl)
