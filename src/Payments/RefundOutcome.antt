-- ===== src/Payments/RefundOutcome.antt =====
-- What a call of PaymentsService.refundPayment leaves, by what it returns.
use patheya_express_platform.Common.{
  ℕ, ◌≡◌, inl, inr, refl, ap, sym, ◌∙◌, Option, none, some, arith, ok, err, Exception, conflict,
}
use mathlib.Core.Path.{subst}
use patheya_express_platform.Common.Int.{ℤ}
use patheya_express_platform.Schema.{TransactionStatus, transaction_status_eq}
use patheya_express_platform.Payments.Store.{
  Store, Payment, Event, publish, find_by_id, transitioned_row, finalize_refund_success,
  finalize_refund_failure,
}
use patheya_express_platform.Payments.Service.{PaymentProvider}
use patheya_express_platform.Payments.Refund.{complete_refund, fail_refund, refund_payment}
use patheya_express_platform.Payments.RefundLedger.{
  pending_refunds, done_refunds, refund_added, IsValid,
}
use patheya_express_platform.Payments.RefundCases.{refund_cases, finalized}
use patheya_express_platform.Payments.RefundFinal.{completed-find, failed-counts}

abbrev audited : Payment → ℤ → Store → Store
audited p amount s =
    publish (Event.payment_refunded p.id p.order_id amount) (publish (Event.refund_audit p.id) s)

complete_reread :
    (provider : PaymentProvider) (p : Payment) (id : ℕ) (pid : Option ℕ) (amount : ℤ) (s : Store)
    (r : Payment)
    → find_by_id p.id (audited p amount (finalize_refund_success p.id id pid s).1) ≡ some r
    → complete_refund provider p id pid amount s
      ≡ (ok r, audited p amount (finalize_refund_success p.id id pid s).1)
unfolding complete_refund
complete_reread provider p id pid amount s r e = rw (e, complete_refund) refl

complete_run :
    (provider : PaymentProvider) (p : Payment) (k id : ℕ) (pid : Option ℕ) (amount : ℤ) (s : Store)
    (r : Payment)
    → p.id ≡ k
    → find_by_id k (finalize_refund_success k id pid s).1 ≡ some r
    → complete_refund provider p id pid amount s
      ≡ (ok r, audited p amount (finalize_refund_success k id pid s).1)
unfolding find_by_id
complete_run provider p k id pid amount s r key =
    subst
      (λ j.
        find_by_id j (finalize_refund_success j id pid s).1 ≡ some r
        → complete_refund provider p id pid amount s
          ≡ (ok r, audited p amount (finalize_refund_success j id pid s).1))
      key (complete_reread provider p id pid amount s r)

fail_run :
    (provider : PaymentProvider) (id : ℕ) (s : Store)
    → fail_refund provider id s
      ≡ (err conflict, publish Event.refund_failed_metric (finalize_refund_failure id s).1)
unfolding fail_refund
fail_run provider id s = refl

failure-payments : (id : ℕ) (s : Store) → (finalize_refund_failure id s).1.payments ≡ s.payments
unfolding finalize_refund_failure
failure-payments id s = refl

-- A refund that reports an error has left the payments, and of each payment the refunds under way and those that are done, as they were.
pub refund_error :
    (provider : PaymentProvider) (k j : ℕ) (amount : ℤ) (s t : Store) (e : Exception)
    → IsValid s
    → refund_payment provider k amount s ≡ (err e, t)
    → (t.payments ≡ s.payments)
      × (pending_refunds j t ≡ pending_refunds j s)
      × (done_refunds j t ≡ done_refunds j s)
refund_error provider k j amount s t x b run = elim (refund_cases provider k amount s) [
  | inl (y, h) ↦ let same : t ≡ s = ground arith in rw same (refl, refl, refl)
  | inr (p, e, key, st, h, r) ↦
      elim (finalized provider p s.next_refund_id amount (refund_added k amount s)) [
        | inl (pid, f) ↦ absurd (
            ground (
              arith,
              complete_run provider p k s.next_refund_id pid amount (refund_added k amount s)
                  (transitioned_row TransactionStatus.refunded pid none p) key
                  (completed-find k pid amount s p b e key st h),
            ))
        | inr f ↦
            let same =
              ap (λ z. z.1)
                (sym run ∙ r ∙ f ∙ fail_run provider s.next_refund_id (refund_added k amount s)) in
            rw same (
              let counts = failed-counts k none amount s p b e key st h j in
              (failure-payments s.next_refund_id (refund_added k amount s), counts.0, counts.1))
      ]
]
