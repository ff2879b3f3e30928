-- ===== src/Payments/RefundCases.antt =====
-- The ways that a call of PaymentsService.refundPayment can go.
use patheya_express_platform.Common.{
  ℕ, ◌≡◌, ◌⊎◌, inl, inr, refl, ap, ◌∙◌, false, Option, none, some, arith, ok, err, Exception,
  conflict, not_found, bad_request, Result, any, Option-cases, Bool-cases,
}
use patheya_express_platform.Common.Int.{ℤ}
use patheya_express_platform.Schema.{TransactionStatus, transaction_status_eq}
use patheya_express_platform.Payments.Store.{
  Store, Payment, refund_with, find_by_id, claim_refund, claim_refund_of, claimed, not_success,
  already_refunded, invalid_amount, refund_in_progress,
}
use patheya_express_platform.Payments.Service.{PaymentProvider}
use patheya_express_platform.Payments.Refund.{
  confirm_refund_on_provider, complete_refund, fail_refund, refund_claimed, refund_after_claim,
  refund_payment,
}
use patheya_express_platform.Payments.Claims.{find_by_id-id}
use patheya_express_platform.Payments.RefundLedger.{pending_refunds, refund_added, count-any}

claim_results :
    (amount : ℤ) (p : Payment) (s : Store)
    → (claim_refund_of amount p s ≡ (already_refunded, s))
      ⊎ (claim_refund_of amount p s ≡ (not_success, s))
      ⊎ (claim_refund_of amount p s ≡ (invalid_amount, s))
      ⊎ (claim_refund_of amount p s ≡ (refund_in_progress, s))
      ⊎ ((p.status ≡ TransactionStatus.success)
          × (any (refund_with TransactionStatus.pending p.id) s.refunds ≡ false)
          × (claim_refund_of amount p s ≡ (claimed p s.next_refund_id, refund_added p.id amount s)))
unfolding claim_refund_of
claim_results amount p s = ground arith

-- A claim that is refused ends the call with the store as it was.
refund_of_cases :
    (provider : PaymentProvider) (amount : ℤ) (p : Payment) (s : Store)
    → let claim = claim_refund_of amount p s in
      let run = refund_after_claim provider claim.0 amount claim.1 in
      ((e : Exception) × (run ≡ (err e, s)))
      ⊎ ((p.status ≡ TransactionStatus.success)
          × (any (refund_with TransactionStatus.pending p.id) s.refunds ≡ false)
          × (run ≡ refund_claimed provider p s.next_refund_id amount (refund_added p.id amount s)))
unfolding refund_after_claim
refund_of_cases provider amount p s = elim (claim_results amount p s) [
  | inl e ↦ inl (conflict, rw e refl)
  | inr (inl e) ↦ inl (conflict, rw e refl)
  | inr (inr (inl e)) ↦ inl (bad_request, rw e refl)
  | inr (inr (inr (inl e))) ↦ inl (conflict, rw e refl)
  | inr (inr (inr (inr (st, h, e)))) ↦ inr (st, h, rw e refl)
]

pub refund_cases :
    (provider : PaymentProvider) (k : ℕ) (amount : ℤ) (s : Store)
    → ((e : Exception) × (refund_payment provider k amount s ≡ (err e, s)))
      ⊎ ((p : Payment) × (find_by_id k s ≡ some p)
          × (p.id ≡ k)
          × (p.status ≡ TransactionStatus.success)
          × (pending_refunds k s ≡ 0)
          × (refund_payment provider k amount s
              ≡ refund_claimed provider p s.next_refund_id amount (refund_added k amount s)))
unfolding refund_payment claim_refund refund_after_claim
refund_cases provider k amount s = elim (Option-cases (find_by_id k s)) [
  | inl e ↦ inl (not_found, rw (e, refund_payment, claim_refund) refl)
  | inr (p, e) ↦
      let key = find_by_id-id k s p e in
      elim (refund_of_cases provider amount p s) [
        | inl (x, h) ↦ inl (x, rw (e, refund_payment, claim_refund) h)
        | inr (st, h, run) ↦ inr (
          p,
          e,
          key,
          st,
          count-any (refund_with TransactionStatus.pending k) s.refunds (rw key at h),
          rw (e, refund_payment, claim_refund)
              (run
                ∙ ap
                    (λ j.
                      refund_claimed provider p s.next_refund_id amount (refund_added j amount s))
                    key),
        )
      ]
]

module _ (provider : PaymentProvider) (p : Payment) (id : ℕ) (amount : ℤ) (s : Store) where
  abbrev pub Finalized : Type 0
  Finalized =
      ((pid : Option ℕ) × (refund_claimed provider p id amount s
          ≡ complete_refund provider p id pid amount s))
      ⊎ (refund_claimed provider p id amount s ≡ fail_refund provider id s)

  finalized_of : (r : Result ℕ) → provider.refund p.provider_payment_id amount ≡ r → Finalized
  unfolding refund_claimed
  finalized_of (ok rid) e = inl (some rid, rw (e, refund_claimed) refl)
  finalized_of (err x) e = elim (Bool-cases (confirm_refund_on_provider provider p amount)) [
    | inl c ↦ inl (none, rw (e, refund_claimed, c) refl)
    | inr c ↦ inr (rw (e, refund_claimed, c) refl)
  ]

  -- The provider decides which of the two ways a claimed refund is finalized.
  pub finalized : Finalized
  finalized = finalized_of (provider.refund p.provider_payment_id amount) refl
