-- ===== src/Payments/Refund.antt =====
-- PaymentsService.refundPayment: claim, provider call, and one of two ways to finalize.
use patheya_express_platform.Common.{
  ℕ, Bool, true, false, Option, none, some, get_or, if◌then◌else◌, Action, ok, err, bad_request,
  not_found, conflict, type_error,
}
use patheya_express_platform.Common.Int.{ℤ, pos, leb_ℤ}
use patheya_express_platform.Payments.Store.{
  Store, Payment, Event, publish, find_by_id, claim_refund, ClaimRefundResult, claimed,
  refund_not_found, not_success, already_refunded, invalid_amount, refund_in_progress,
  finalize_refund_success, finalize_refund_failure,
}
use patheya_express_platform.Payments.Service.{PaymentProvider, RefundStatus}

-- `refund_status === 'full'`, or a partial refund of the amount expected at least.
abbrev pub refund_confirmed : RefundStatus → Option ℤ → ℤ → Bool
refund_confirmed RefundStatus.full refunded expected = true
refund_confirmed RefundStatus.partial refunded expected = leb_ℤ expected (get_or refunded (pos 0))
refund_confirmed RefundStatus.none_yet refunded expected = false

module _ (provider : PaymentProvider) where
  -- `confirmRefundOnProvider`
  unfoldable pub confirm_refund_on_provider : Payment → ℤ → Bool
  confirm_refund_on_provider p expected = elim p.provider_payment_id [
    | none ↦ false
    | some id ↦ elim (provider.fetch_payment id) [
      | ok fetched ↦ refund_confirmed fetched.refund_status fetched.amount_refunded expected
      | err _ ↦ false
    ]
  ]

  -- The path of a refund that the provider has made: both rows, the audit entry, the event.
  unfoldable pub complete_refund : Payment → ℕ → Option ℕ → ℤ → Action Store Payment
  complete_refund p refund_id provider_refund_id amount s =
      let (counts, t) = finalize_refund_success p.id refund_id provider_refund_id s in
      let u =
        publish (Event.payment_refunded p.id p.order_id amount)
          (publish (Event.refund_audit p.id) t) in
      elim (find_by_id p.id u) [ none ↦ (err type_error, u) | some q ↦ (ok q, u) ]

  -- The path of a refund that has failed: the refund row only.
  unfoldable pub fail_refund : ℕ → Action Store Payment
  fail_refund refund_id s =
      let (count, t) = finalize_refund_failure refund_id s in
      (err conflict, publish Event.refund_failed_metric t)

  unfoldable pub refund_claimed : Payment → ℕ → ℤ → Action Store Payment
  refund_claimed p refund_id amount s = elim (provider.refund p.provider_payment_id amount) [
    | ok provider_refund_id ↦ complete_refund p refund_id (some provider_refund_id) amount s
    | err e ↦
        if confirm_refund_on_provider p amount
        then complete_refund p refund_id none amount s
        else fail_refund refund_id s
  ]

  unfoldable pub refund_after_claim : ClaimRefundResult → ℤ → Action Store Payment
  unfolding refund_claimed
  refund_after_claim (claimed p id) amount s = refund_claimed p id amount s
  refund_after_claim refund_not_found amount s = (err not_found, s)
  refund_after_claim not_success amount s = (err conflict, s)
  refund_after_claim already_refunded amount s = (err conflict, s)
  refund_after_claim invalid_amount amount s = (err bad_request, s)
  refund_after_claim refund_in_progress amount s = (err conflict, s)

  unfoldable pub refund_payment : ℕ → ℤ → Action Store Payment
  unfolding refund_after_claim
  refund_payment payment_id amount s =
      let (claim, t) = claim_refund payment_id amount s in refund_after_claim claim amount t
