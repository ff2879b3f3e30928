-- ===== src/Payments/Attempts.antt =====
-- What createPayment leaves of the attempts of an order, and what verifyPayment has tested.
use patheya_express_platform.Common.{
  ℕ, ◌≡◌, ◌≢◌, ◌⊎◌, inl, inr, refl, true, none, some, arith, ok, err, Result, Option-cases,
  Bool-cases,
}
use patheya_express_platform.Schema.{TransactionStatus, transaction_status_eq}
use patheya_express_platform.Payments.Store.{Store, Payment, find_by_provider_order_id}
use patheya_express_platform.Payments.Service.{
  PaymentProvider, ProviderPayment, VerifyPayload, verify_payment, verify_found,
  assert_provider_payment_matches, matches,
}

abbrev ok_or_zero : Result ℕ → ℕ
ok_or_zero (ok n) = n
ok_or_zero (err e) = 0

-- What `verified_authentic` says of a payment that was not a success yet.
abbrev pub IsPaid : PaymentProvider → Payment → ℕ → Type 0
IsPaid provider p id =
    (p.status ≡ TransactionStatus.success)
    ⊎ ((fetched : ProviderPayment) × (provider.fetch_payment id ≡ ok fetched)
        × (matches p fetched ≡ true))

verify_found-IsPaid :
    (provider : PaymentProvider) (p : Payment) (id : ℕ) (s t : Store) (q : Payment)
    (r : Result ProviderPayment)
    → provider.fetch_payment id ≡ r
    → verify_found provider p id s ≡ (ok q, t)
    → IsPaid provider p id
unfolding verify_found assert_provider_payment_matches
verify_found-IsPaid provider p id s t q (ok f) e run = elim (Bool-cases (matches p f)) [
  | inl c ↦ inr (f, e, c)
  | inr c ↦ inl (ground arith)
]
verify_found-IsPaid provider p id s t q (err x) e run = inl (ground arith)

verify_tested :
    (provider : PaymentProvider) (customer_of : ℕ → ℕ) (payload : VerifyPayload) (user : ℕ)
    (s t : Store) (q p : Payment)
    → find_by_provider_order_id payload.razorpay_order_id s ≡ some p
    → verify_payment provider customer_of payload user s ≡ (ok q, t)
    → (provider.verify_payment_signature payload ≡ true)
      × (customer_of p.order_id ≡ user)
      × (verify_found provider p payload.razorpay_payment_id s ≡ (ok q, t))
unfolding verify_payment
verify_tested provider customer_of payload user s t q p e run = ground arith

verify_missing :
    (provider : PaymentProvider) (customer_of : ℕ → ℕ) (payload : VerifyPayload) (user : ℕ)
    (s t : Store) (q : Payment)
    → find_by_provider_order_id payload.razorpay_order_id s ≡ none
    → verify_payment provider customer_of payload user s ≢ (ok q, t)
unfolding verify_payment
verify_missing provider customer_of payload user s t q e run = ground arith

-- A payment is reported verified only to the customer of its order, on a signature that the
-- provider accepts, and if it had not succeeded before then only with a captured provider payment
-- of its amount in rupees.
pub verified_authentic :
    (provider : PaymentProvider) (customer_of : ℕ → ℕ) (payload : VerifyPayload) (user : ℕ)
    (s t : Store) (q : Payment)
    → verify_payment provider customer_of payload user s ≡ (ok q, t)
    → (provider.verify_payment_signature payload ≡ true)
      × ((p : Payment) × (find_by_provider_order_id payload.razorpay_order_id s ≡ some p)
          × (customer_of p.order_id ≡ user)
          × IsPaid provider p payload.razorpay_payment_id)
verified_authentic provider customer_of payload user s t q run =
    elim (Option-cases (find_by_provider_order_id payload.razorpay_order_id s)) [
      | inl e ↦ absurd (verify_missing provider customer_of payload user s t q e run)
      | inr (p, e) ↦
          let tested = verify_tested provider customer_of payload user s t q p e run in
          (
            tested.0,
            (
              p,
              e,
              tested.1,
              verify_found-IsPaid provider p payload.razorpay_payment_id s t q
                  (provider.fetch_payment payload.razorpay_payment_id) refl tested.2,
            ),
          )
    ]
