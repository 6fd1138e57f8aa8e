-- ===== src/Payment/Examples.antt =====
-- backend/internal/domain/payment/payment.go: an order is charged, refunded and charged once more.
use posserver.Prelude.{◌≡◌, refl, [], ◌∷◌}
use posserver.Prelude.Int.{pos}
use posserver.Payment.{
  Charge, TestCard, charged, charges, refunds, new_test_card, receipt, charge, calls,
}
use posserver.Payment.Charged.{charge-calls}

abbrev first : Charge
first = record { amount_cents = pos 1800; token = "tok_visa"; idempotency_key = "o1" }

abbrev again : Charge
again = record { amount_cents = pos 9900; token = "tok_decline"; idempotency_key = "o1" }

took : (charge new_test_card first).1 ≡ charged (receipt first)
unfolding charge
took = refl

abbrev after : TestCard
after = calls (charge new_test_card first).0 (refunds "tc_o1" (pos 500) ∷ charges first ∷ [])

charge-calls_example : charge after again ≡ (after, charged (receipt first))
charge-calls_example =
    charge-calls new_test_card first again (refunds "tc_o1" (pos 500) ∷ charges first ∷ [])
      (receipt first) refl took refl
