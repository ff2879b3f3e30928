-- ===== src/Payments/Service.antt =====
-- The handlers of services/payments.service.ts that bring a payment about, and the sweep of
-- services/payment-reconciliation.service.ts. The provider and the owner of an order are parameters.
use patheya_express_platform.Common.{
  ℕ, suc, Bool, true, false, not, ◌&&◌, ◌||◌, Option, none, some, List, [], ◌∷◌, ◌==◌, ◌===◌,
  if◌then◌else◌, get_or, includes, find, Action, Result, ok, err, bad_request, unauthorized,
  forbidden, not_found, conflict, ◌>>=◌, ◌>>◌, pure, throw_if, or_throw, gets, modify,
}
use patheya_express_platform.Common.Int.{ℤ, pos, ◌+ℤ◌, ◌-ℤ◌, ltb_ℤ, leb_ℤ}
use patheya_express_platform.Schema.{
  TransactionStatus, transaction_status_eq, OrderStatus, order_status_eq, PaymentStatus,
  payment_status_eq,
}
use patheya_express_platform.Payments.Store.{
  Store, Payment, PaymentMethod, Event, publish, find_by_id, find_by_provider_order_id,
  find_latest_attempt, find_active_payment_for_order, deactivate_order_attempts, insert_payment,
}
use patheya_express_platform.Payments.Transition.{transition_payment_status}

pub data Currency : Type 0 where
  inr other_currency : Currency

-- `status` and `refund_status` of the provider's payment, by the values that the code tests.
pub data ProviderStatus : Type 0 where
  captured other_status : ProviderStatus

pub data RefundStatus : Type 0 where
  full partial none_yet : RefundStatus

pub data MethodName : Type 0 where
  upi card netbanking wallet unknown_method : MethodName

pub record ProviderPayment : Type 0 where
  pub id : ℕ
  pub order_id : ℕ
  pub amount : ℤ
  pub currency : Currency
  pub status : ProviderStatus
  pub method : Option MethodName
  pub refund_status : RefundStatus
  pub amount_refunded : Option ℤ

pub record VerifyPayload : Type 0 where
  pub razorpay_order_id : ℕ
  pub razorpay_payment_id : ℕ
  pub razorpay_signature : ℕ

-- `providers/payment-provider.interface.ts`. A call that throws is an `err`.
pub record PaymentProvider : Type 0 where
  pub create_order : ℤ → ℕ → ℕ → Result ℕ
  pub verify_payment_signature : VerifyPayload → Bool
  pub verify_webhook_signature : ℕ → ℕ → Bool
  pub refund : Option ℕ → ℤ → Result ℕ
  pub fetch_payment : ℕ → Result ProviderPayment
  pub fetch_order_payments : ℕ → Result (List ProviderPayment)

-- What `createPayment` selects of the order.
pub record OrderForPayment : Type 0 where
  pub customer_id : ℕ
  pub status : OrderStatus
  pub payment_status : PaymentStatus
  pub total_amount : ℤ
  pub wallet_amount_used : ℤ

abbrev pub payable_order_statuses : List OrderStatus
payable_order_statuses =
    OrderStatus.pending ∷ OrderStatus.confirmed ∷ OrderStatus.preparing
    ∷ OrderStatus.ready_for_pickup ∷ OrderStatus.out_for_delivery ∷ []

-- `Math.abs(amount - expected) > AMOUNT_TOLERANCE`
abbrev pub off_by_more : ℤ → ℤ → Bool
off_by_more amount expected = ltb_ℤ (expected +ℤ pos 1) amount || ltb_ℤ (amount +ℤ pos 1) expected

abbrev is_success : Option Payment → Bool
is_success none = false
is_success (some p) = p.status === TransactionStatus.success

abbrev pub next_attempt : Option Payment → ℕ
next_attempt none = 1
next_attempt (some p) = suc p.attempt_number

-- `amount === expected && currency === 'INR'`, and `status === 'captured'`.
abbrev is_inr : Currency → Bool
is_inr inr = true
is_inr other_currency = false

abbrev is_captured : ProviderStatus → Bool
is_captured captured = true
is_captured other_status = false

abbrev pub right_amount : Payment → ProviderPayment → Bool
right_amount payment entity =
    (leb_ℤ entity.amount payment.amount && leb_ℤ payment.amount entity.amount)
    && is_inr entity.currency

abbrev pub matches : Payment → ProviderPayment → Bool
matches payment entity = right_amount payment entity && is_captured entity.status

-- `RAZORPAY_METHOD_MAP[entity.method]`
abbrev method_of : Option MethodName → Option PaymentMethod
method_of none = none
method_of (some MethodName.upi) = some PaymentMethod.upi
method_of (some MethodName.card) = some PaymentMethod.card
method_of (some MethodName.netbanking) = some PaymentMethod.netbanking
method_of (some MethodName.wallet) = some PaymentMethod.wallet
method_of (some MethodName.unknown_method) = none

-- What follows a transition to SUCCESS that this call made: the event and the notification job.
abbrev pub announce_success : Payment → Bool → Store → Store
announce_success p false s = s
announce_success p true s =
    publish (Event.notification_job p.order_id) (publish (Event.payment_success p.id p.order_id) s)

abbrev pub announce_failure : Payment → Bool → Store → Store
announce_failure p false s = s
announce_failure p true s = publish (Event.payment_failed p.id p.order_id) s

-- The transition to SUCCESS and what follows it, which three handlers share.
unfoldable pub succeed : Payment → Option ℕ → Option PaymentMethod → Action Store Payment
succeed p provider_payment_id method = do
  (updated, transitioned) ←
      transition_payment_status p.id TransactionStatus.success provider_payment_id method
  modify (announce_success p transitioned)
  pure updated

-- `handlePaymentCaptured`; a payload that fits no payment or the wrong amount is acknowledged and
-- changes nothing.
unfoldable pub handle_payment_captured : ProviderPayment → Action Store (Unit {0})
unfolding succeed
handle_payment_captured entity s = elim (find_by_provider_order_id entity.order_id s) [
  | none ↦ (ok tt, s)
  | some p ↦
      if p.status === TransactionStatus.success
      then (ok tt, s)
      else if not (right_amount p entity)
      then (ok tt, s)
      else (succeed p (some entity.id) (method_of entity.method) >> pure tt) s
]

-- `handlePaymentFailed`
unfoldable pub handle_payment_failed : ProviderPayment → Action Store (Unit {0})
handle_payment_failed entity s = elim (find_by_provider_order_id entity.order_id s) [
  | none ↦ (ok tt, s)
  | some p ↦
      if p.status === TransactionStatus.failed
      then (ok tt, s)
      else (transition_payment_status p.id TransactionStatus.failed (some entity.id) none >>= λ r.
            modify (announce_failure p r.1))
          s
]

-- `markPaymentSucceededFromReconciliation`
unfoldable pub mark_payment_succeeded_from_reconciliation : ℕ → ℕ → Action Store Payment
unfolding succeed
mark_payment_succeeded_from_reconciliation id provider_payment_id s = elim (find_by_id id s) [
  | none ↦ (err not_found, s)
  | some p ↦
      if p.status === TransactionStatus.success
      then (ok p, s)
      else succeed p (some provider_payment_id) none s
]

-- The events of `PAYMENT_EVENTS` that `processWebhook` tells apart.
pub data WebhookKind : Type 0 where
  payment_captured payment_failed other_event : WebhookKind

abbrev dispatch_webhook : WebhookKind → ProviderPayment → Action Store (Unit {0})
dispatch_webhook payment_captured entity = handle_payment_captured entity
dispatch_webhook payment_failed entity = handle_payment_failed entity
dispatch_webhook other_event entity = pure tt

module _ (provider : PaymentProvider) where
  -- `createPayment`
  unfoldable pub create_payment : Option OrderForPayment → ℕ → ℤ → ℕ → Action Store ℕ
  create_payment found order_id amount user_id = do
    order ← or_throw found not_found
    throw_if (not (order.customer_id == user_id)) forbidden
    throw_if (order.payment_status === PaymentStatus.paid) conflict
    throw_if (not (includes payable_order_statuses order.status)) conflict
    throw_if (off_by_more amount (order.total_amount -ℤ order.wallet_amount_used)) bad_request
    active ← gets (find_active_payment_for_order order_id)
    throw_if (is_success active) conflict
    latest ← gets (find_latest_attempt order_id)
    modify (deactivate_order_attempts order_id)
    provider_order ← (λ s. (provider.create_order amount order_id (next_attempt latest), s))
    (λ s.
        let (id, t) = insert_payment order_id amount provider_order (next_attempt latest) s in
        (ok id, t))

  -- `assertProviderPaymentMatches`
  unfoldable pub assert_provider_payment_matches : Payment → ℕ → Action Store (Unit {0})
  assert_provider_payment_matches payment provider_payment_id = do
    fetched ← (λ s. (provider.fetch_payment provider_payment_id, s))
    throw_if (not (matches payment fetched)) conflict

  -- The part of `verifyPayment` behind the ownership check.
  unfoldable pub verify_found : Payment → ℕ → Action Store Payment
  unfolding assert_provider_payment_matches succeed
  verify_found p provider_payment_id s =
      if p.status === TransactionStatus.success
      then (ok p, s)
      else (do
        assert_provider_payment_matches p provider_payment_id
        modify (deactivate_order_attempts p.order_id)
        succeed p (some provider_payment_id) none)
          s

  -- `verifyPayment`; `customer_of` is the customer of an order, which the query joins.
  unfoldable pub verify_payment : (ℕ → ℕ) → VerifyPayload → ℕ → Action Store Payment
  unfolding verify_found
  verify_payment customer_of payload user_id = do
    throw_if (not (provider.verify_payment_signature payload)) conflict
    p ← or_throw (← gets (find_by_provider_order_id payload.razorpay_order_id)) not_found
    throw_if (not (customer_of p.order_id == user_id)) forbidden
    verify_found p payload.razorpay_payment_id

  -- `processWebhook`; the raw body and the signature go to the provider alone.
  unfoldable pub process_webhook : WebhookKind → ProviderPayment → ℕ → ℕ → Action Store (Unit {0})
  unfolding handle_payment_captured handle_payment_failed
  process_webhook kind entity raw_body signature = do
    throw_if (not (provider.verify_webhook_signature raw_body signature)) unauthorized
    dispatch_webhook kind entity
    modify (publish (Event.webhook_event entity.id))

  first_captured : List ProviderPayment → Option ProviderPayment
  first_captured items = find (λ item. is_captured item.status) items

  -- `reconcileOne`: whether the payment was resolved; an exception is counted and swallowed.
  unfoldable pub reconcile_one : Payment → Store → Bool × Store
  unfolding first_captured
  reconcile_one p s = elim (provider.fetch_order_payments (get_or p.provider_order_id 0)) [
    | err e ↦ (false, s)
    | ok items ↦ elim (first_captured items) [
      | none ↦ (false, s)
      | some c ↦
          let (r, t) = mark_payment_succeeded_from_reconciliation p.id c.id s in
          elim r [ ok _ ↦ (true, t) | err _ ↦ (false, t) ]
    ]
  ]

  -- The loop of `reconcilePendingPayments` over the payments found, with the number resolved.
  unfoldable pub reconcile_each : List Payment → Store → ℕ × Store
  reconcile_each [] s = (0, s)
  reconcile_each (p ∷ ps) s =
      let (resolved, t) = reconcile_one p s in
      let (n, u) = reconcile_each ps t in (if resolved then suc n else n, u)
