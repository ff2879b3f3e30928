-- ===== src/Orders/Payment.antt =====
-- The operations of services/orders.service.ts that move the payment status of an order, and what a
-- cancellation sets off. A refund spans the tables of orders, payments and coupons.
use patheya_express_platform.Common.{
  ℕ, ◌+◌, ◌-◌, ◌*◌, ◌/◌, not, ◌&&◌, Option, none, some, List, [], ◌∷◌, ltb, ◌==◌, ◌===◌, get_or,
  if◌then◌else◌, Action, Result, ok, err, bad_request, forbidden, not_found, conflict, type_error,
  ◌>>=◌, ◌>>◌, pure, throw_if, or_throw, modify,
}
use patheya_express_platform.Common.Int.{pos}
use patheya_express_platform.Schema.{
  OrderStatus, order_status_eq, PaymentStatus, payment_status_eq, PaymentMode, payment_mode_eq,
  TransactionStatus, transaction_status_eq,
}
use patheya_express_platform.Coupons
use patheya_express_platform.Payments
use patheya_express_platform.Orders.Access.{AuthenticatedUser, is_admin}
use patheya_express_platform.Orders.Store.{
  Store, Order, wallet_refund, refund_audited, find_order_by_id, publish, write_status,
  switch_payment_mode_if_eligible, claim_payment_status,
}
use patheya_express_platform.Orders.Status.{record_status}

abbrev pub not_paid : List PaymentStatus
not_paid = PaymentStatus.pending ∷ PaymentStatus.failed ∷ PaymentStatus.refunded ∷ []

-- The confirmation of a pending order that has been paid for.
unfoldable pub confirm_paid : Order → ℕ → Action Store (Unit {0})
confirm_paid o now s =
    if not (o.status === OrderStatus.pending)
    then (ok tt, s)
    else (write_status o.id OrderStatus.confirmed now >>= λ updated.
          modify (record_status o.id OrderStatus.confirmed none updated))
        s

-- `markOrderPaid`
unfoldable pub mark_order_paid : ℕ → ℕ → Action Store (Unit {0})
unfolding confirm_paid
mark_order_paid id now s = elim (find_order_by_id id s) [
  | none ↦ (ok tt, s)
  | some o ↦
      let (count, t) = claim_payment_status id not_paid PaymentStatus.paid s in
      if o.payment_status === PaymentStatus.paid
      then (ok tt, s)
      else if count == 0
      then (ok tt, s)
      else confirm_paid o now t
]

-- `markOrderPaymentFailed`
unfoldable pub mark_order_payment_failed : ℕ → Store → Store
mark_order_payment_failed id s = elim (find_order_by_id id s) [
  | none ↦ s
  | some o ↦
      if o.payment_status === PaymentStatus.paid
      then s
      else (claim_payment_status id not_paid PaymentStatus.failed s).1
]

-- The compare-and-swap of `switchToCod`.
unfoldable pub switch_mode : ℕ → Action Store Order
switch_mode id s =
    let (updated, t) = switch_payment_mode_if_eligible id PaymentMode.cod s in
    or_throw updated conflict t

-- `switchToCod` on the order as it was read.
unfoldable pub switch_found : Order → AuthenticatedUser → Action Store Order
unfolding switch_mode
switch_found o user s =
    if not (o.customer_id == user.user_id) && not (is_admin user)
    then (err forbidden, s)
    else if o.payment_mode === PaymentMode.cod
    then (ok o, s)
    else if o.payment_status === PaymentStatus.paid
    then (err conflict, s)
    else if not (o.status === OrderStatus.pending)
    then (err conflict, s)
    else switch_mode o.id s

-- `switchToCod`
unfoldable pub switch_to_cod : ℕ → AuthenticatedUser → Action Store Order
unfolding switch_found
switch_to_cod id user s = elim (find_order_by_id id s) [
  | none ↦ (err not_found, s)
  | some o ↦ switch_found o user s
]

-- The tables that a refund of an order writes to.
pub record Platform : Type 0 where
  pub order_rows : Store
  pub payment_rows : Payments.Store.Store
  pub coupon_rows : Coupons.Store

abbrev pub on_payments {ℓ} : {A : Type ℓ} → Action Payments.Store.Store A → Action Platform A
on_payments m s = let (r, t) = m s.payment_rows in (r, record s { payment_rows = t })

abbrev pub on_coupons {ℓ} : {A : Type ℓ} → Action Coupons.Store A → Action Platform A
on_coupons m s = let (r, t) = m s.coupon_rows in (r, record s { coupon_rows = t })

abbrev pub on_orders : (Store → Store) → Action Platform (Unit {0})
on_orders f s = (ok tt, record s { order_rows = f s.order_rows })

-- `Math.round(used * (requested / total) * 100) / 100` in paise: the quotient rounded half up.
unfoldable pub refund_share : ℕ → ℕ → ℕ → ℕ
refund_share used requested total =
    if total == 0 then 0 else (2 * (used * requested) + total) / (2 * total)

-- `walletPortion` and `razorpayPortion`; the requested amount is the total when none is given.
abbrev pub wallet_portion : Order → Option ℕ → ℕ
wallet_portion o amount =
    refund_share o.wallet_amount_used (get_or amount o.total_amount) o.total_amount

abbrev pub online_portion : Order → Option ℕ → ℕ
online_portion o amount =
    refund_share (o.total_amount - o.wallet_amount_used) (get_or amount o.total_amount)
      o.total_amount

abbrev succeeded : Option Payments.Store.Payment → Option Payments.Store.Payment
succeeded none = none
succeeded (some p) = if p.status === TransactionStatus.success then some p else none

module _ (provider : Payments.Service.PaymentProvider) where
  -- The part of a refund that goes back through the provider.
  unfoldable pub refund_online : ℕ → ℕ → Action Platform (Unit {0})
  refund_online id amount s =
      if amount == 0
      then (ok tt, s)
      else elim (succeeded (Payments.Store.find_active_payment_for_order id s.payment_rows)) [
        | none ↦ (err bad_request, s)
        | some p ↦
            (on_payments (Payments.Refund.refund_payment provider p.id (pos amount)) >> pure tt) s
      ]

  abbrev pub refund_wallet : ℕ → ℕ → Store → Store
  refund_wallet id amount s = if amount == 0 then s else publish (wallet_refund id amount) s

  -- What `refundOrder` does behind its claim, the `try` block.
  unfoldable pub refund_claimed_order : Order → Option ℕ → Action Platform Order
  unfolding refund_online
  refund_claimed_order o amount = do
    throw_if (ltb (o.total_amount + 1) (get_or amount o.total_amount)) bad_request
    refund_online o.id (online_portion o amount)
    on_orders (refund_wallet o.id (wallet_portion o amount))
    on_coupons (Coupons.release_for_order o.id)
    on_orders (publish (refund_audited o.id (wallet_portion o amount + online_portion o amount)))
    (λ s. or_throw (find_order_by_id o.id s.order_rows) type_error s)

  -- The `catch` block: REFUNDED goes back to PAID, and the error is thrown again.
  abbrev pub revert_claim : ℕ → Result Order × Platform → Result Order × Platform
  revert_claim id (ok o, s) = (ok o, s)
  revert_claim id (err e, s) = (
    err e,
    record s {
      order_rows =
          (claim_payment_status id (PaymentStatus.refunded ∷ []) PaymentStatus.paid s.order_rows).1;
    },
  )

  -- `refundOrder`
  unfoldable pub refund_order : ℕ → Option ℕ → Action Platform Order
  unfolding refund_claimed_order
  refund_order id amount s = elim (find_order_by_id id s.order_rows) [
    | none ↦ (err not_found, s)
    | some o ↦
        let (count, t) =
          claim_payment_status id (PaymentStatus.paid ∷ []) PaymentStatus.refunded s.order_rows in
        if count == 0
        then (err conflict, s)
        else revert_claim id (refund_claimed_order o amount (record s { order_rows = t }))
  ]

  -- `handleCancellationSideEffects`: every error is logged and swallowed.
  unfoldable pub cancellation_side_effects : Order → Platform → Platform
  unfolding refund_order
  cancellation_side_effects o s =
      let released = (on_coupons (Coupons.release_for_order o.id) s).1 in
      let refunded = (refund_order o.id none released).1 in
      elim (find_order_by_id o.id s.order_rows) [
        | none ↦ s
        | some current ↦
            if not (current.status === OrderStatus.cancelled)
            then s
            else if not (o.payment_status === PaymentStatus.paid)
            then released
            else refunded
      ]
