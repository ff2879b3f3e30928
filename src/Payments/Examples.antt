-- ===== src/Payments/Examples.antt =====
-- Payments at concrete inputs: the runs that the properties of this component are applied to.
use patheya_express_platform.Common.{
  ℕ, ◌≡◌, ◌≢◌, refl, Bool, true, false, none, some, [], ◌∷◌, arith, Result, ok, err, conflict,
}
use patheya_express_platform.Common.Int.{pos, ◌+ℤ◌}
use patheya_express_platform.Schema.{
  TransactionStatus, transaction_status_eq, OrderStatus, PaymentStatus,
}
use patheya_express_platform.Payments.Machine.{
  get_allowed_source_statuses, payment_state_machine, validate_transition,
}
use patheya_express_platform.Payments.Store.{
  Store, Payment, find_by_id, find_by_provider_order_id, claim_refund, claim_refund_of,
  claim_status_transition, finalize_refund_failure, deactivate_order_attempts,
}
use patheya_express_platform.Payments.Transition.{
  reread, transition_seen, transition_payment_status,
}
use patheya_express_platform.Payments.Service.{
  PaymentProvider, ProviderPayment, VerifyPayload, OrderForPayment, Currency, ProviderStatus,
  RefundStatus, create_payment, verify_payment, verify_found, succeed,
  assert_provider_payment_matches,
}
use patheya_express_platform.Payments.Refund.{
  refund_payment, refund_after_claim, refund_claimed, fail_refund, confirm_refund_on_provider,
}
use patheya_express_platform.Payments.Calls.{deactivates, run}
use patheya_express_platform.Payments.Once.{transition_once}
use patheya_express_platform.Payments.RefundLedger.{IsValid, pending_refunds, done_refunds}
use patheya_express_platform.Payments.RefundOutcome.{refund_error}
use patheya_express_platform.Payments.Attempts.{IsPaid, verified_authentic}

abbrev attempt : TransactionStatus → Payment
attempt st = record {
  id = 1;
  order_id = 7;
  amount = pos 5000;
  status = st;
  provider_order_id = some 70;
  provider_payment_id = none;
  method = none;
  attempt_number = 1;
  is_active = true;
}

abbrev one_payment : TransactionStatus → Store
one_payment st = record {
  payments = attempt st ∷ [];
  refunds = [];
  next_payment_id = 2;
  next_refund_id = 1;
  events = [];
}

abbrev captured_payment : ProviderPayment
captured_payment = record {
  id = 700;
  order_id = 70;
  amount = pos 5000;
  currency = Currency.inr;
  status = ProviderStatus.captured;
  method = none;
  refund_status = RefundStatus.none_yet;
  amount_refunded = none;
}

-- A provider that accepts signature 1, knows one captured payment, and refunds or not.
abbrev test_provider : Result ℕ → PaymentProvider
test_provider answer = record {
  create_order = λ amount order attempt. ok 71;
  verify_payment_signature = λ p. true;
  verify_webhook_signature = λ body signature. true;
  refund = λ id amount. answer;
  fetch_payment = λ id. ok captured_payment;
  fetch_order_payments = λ id. ok (captured_payment ∷ []);
}

one_payment-IsValid : (st : TransactionStatus) → IsValid (one_payment st)
unfolding find_by_id
one_payment-IsValid st = record {
  payment_keys = (omega arith, tt);
  refund_keys = tt;
  sound = λ k. (omega arith, (λ h. absurd (omega arith)), (λ h. absurd (omega arith)));
}

abbrev after_success : Store
after_success =
    (transition_seen (attempt TransactionStatus.pending) 1 TransactionStatus.success (some 700) none
      (one_payment TransactionStatus.pending)).1

abbrev moved_attempt : Payment
moved_attempt = record (attempt TransactionStatus.success) { provider_payment_id = some 700 }

first_success :
    transition_seen
      (attempt TransactionStatus.pending)
      1
      TransactionStatus.success
      (some 700)
      none
      (one_payment TransactionStatus.pending)
    ≡ (ok (moved_attempt, true), after_success)
unfolding transition_seen validate_transition reread claim_status_transition find_by_id
    get_allowed_source_statuses payment_state_machine
first_success = refl

transition_once_example :
    transition_seen
      (attempt TransactionStatus.pending)
      1
      TransactionStatus.success
      (some 700)
      none
      (run (deactivates 7 ∷ []) after_success)
    ≢ (ok (moved_attempt, true), after_success)
transition_once_example =
    transition_once (attempt TransactionStatus.pending) (attempt TransactionStatus.pending) 1
      TransactionStatus.success (some 700) (some 700) none none
      (one_payment TransactionStatus.pending) after_success after_success moved_attempt
      moved_attempt (deactivates 7 ∷ []) (omega arith, tt) first_success

abbrev made : Store
made =
    (refund_payment (test_provider (ok 900)) 1 (pos 5000) (one_payment TransactionStatus.success)).1

abbrev refused : Store
refused =
    (refund_payment (test_provider (err conflict)) 1 (pos 5000)
      (one_payment TransactionStatus.success)).1

refused_refund :
    refund_payment
      (test_provider (err conflict))
      1
      (pos 5000)
      (one_payment TransactionStatus.success)
    ≡ (err conflict, refused)
unfolding refund_payment refund_after_claim refund_claimed fail_refund claim_refund claim_refund_of
    find_by_id finalize_refund_failure confirm_refund_on_provider ◌+ℤ◌
refused_refund = refl

refund_error_example :
    (refused.payments ≡ attempt TransactionStatus.success ∷ [])
    × (pending_refunds 1 refused ≡ 0)
    × (done_refunds 1 refused ≡ 0)
refund_error_example =
    refund_error (test_provider (err conflict)) 1 1 (pos 5000)
      (one_payment TransactionStatus.success) refused conflict
      (one_payment-IsValid TransactionStatus.success) refused_refund

abbrev payable_order : OrderForPayment
payable_order = record {
  customer_id = 3;
  status = OrderStatus.pending;
  payment_status = PaymentStatus.pending;
  total_amount = pos 6000;
  wallet_amount_used = pos 1000;
}

abbrev second_attempt : Store
second_attempt =
    (create_payment (test_provider (ok 900)) (some payable_order) 7 (pos 5000) 3
      (one_payment TransactionStatus.failed)).1

abbrev payload : VerifyPayload
payload = record { razorpay_order_id = 70; razorpay_payment_id = 700; razorpay_signature = 1 }

abbrev verified : Store
verified =
    (verify_payment (test_provider (ok 900)) (λ o. 3) payload 3
      (one_payment TransactionStatus.pending)).1

abbrev verified_attempt : Payment
verified_attempt = record (attempt TransactionStatus.success) {
  provider_payment_id = some 700;
  is_active = false;
}

verified_run :
    verify_payment
      (test_provider (ok 900))
      (λ o. 3)
      payload
      3
      (one_payment TransactionStatus.pending)
    ≡ (ok verified_attempt, verified)
unfolding verify_payment verify_found assert_provider_payment_matches find_by_provider_order_id
    deactivate_order_attempts succeed transition_payment_status transition_seen reread find_by_id
    validate_transition claim_status_transition get_allowed_source_statuses payment_state_machine
verified_run = refl

verified_authentic_example :
    (◌≡◌ {A = Bool} true true)
    × ((p : Payment) × (find_by_provider_order_id 70 (one_payment TransactionStatus.pending)
          ≡ some p)
        × (◌≡◌ {A = ℕ} 3 3)
        × IsPaid (test_provider (ok 900)) p 700)
verified_authentic_example =
    verified_authentic (test_provider (ok 900)) (λ o. 3) payload 3
      (one_payment TransactionStatus.pending) verified verified_attempt verified_run
