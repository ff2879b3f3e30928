-- ===== src/Payments/RefundFinal.antt =====
-- The tables after a refund that has just been claimed is finalized, as done or as failed.
use patheya_express_platform.Common.{
  ℕ, ◌+◌, ◌≡◌, refl, ap, ◌∙◌, Option, none, some, [], ◌∷◌, arith, count, if◌then◌else◌,
}
use patheya_express_platform.Common.Int.{ℤ}
use patheya_express_platform.Common.Table.{update_where}
use patheya_express_platform.Schema.{TransactionStatus, transaction_status_eq}
use patheya_express_platform.Payments.Store.{
  Store, Payment, new_refund, refund_with, open_refund, refund_moved, find_by_id, transitioned_row,
  claim_status_transition, finalize_refund_success, finalize_refund_failure,
}
use patheya_express_platform.Payments.Claims.{claim-find}
use patheya_express_platform.Payments.RefundLedger.{
  refund_added-IsValid, pending_refunds, done_refunds, refund_added, IsValid, moved-count,
}
use patheya_express_platform.Payments.RefundSteps.{refund_done, completes_pending}

-- Completing the refund of `k` that has just been claimed.
module _ (k : ℕ) (pid : Option ℕ) (amount : ℤ) (s : Store) (p : Payment) (b : IsValid s)
    (e : find_by_id k s ≡ some p) (key : p.id ≡ k) (st : p.status ≡ TransactionStatus.success)
    (none_open : pending_refunds k s ≡ 0) where
  added : IsValid (refund_added k amount s)
  added = refund_added-IsValid k amount s p b e st none_open

  completed_store :
      (finalize_refund_success k s.next_refund_id pid (refund_added k amount s)).1
      ≡ (claim_status_transition k
          (TransactionStatus.success ∷ [])
          TransactionStatus.refunded
          pid
          none
          (refund_done s.next_refund_id (refund_added k amount s))).1
  completed_store =
      completes_pending k s.next_refund_id pid (new_refund s.next_refund_id k amount)
        (refund_added k amount s) added (ground arith) refl

  pub completed-find :
      find_by_id k (finalize_refund_success k s.next_refund_id pid (refund_added k amount s)).1
      ≡ some (transitioned_row TransactionStatus.refunded pid none p)
  completed-find =
      ap (find_by_id k) completed_store
      ∙ claim-find k k (TransactionStatus.success ∷ []) TransactionStatus.refunded pid none
          (refund_done s.next_refund_id (refund_added k amount s))
      ∙ (unfold refund_done find_by_id in ground (arith, e))

  moved :
      (to status : TransactionStatus)
      → count (refund_with status k) (
            update_where
              (open_refund s.next_refund_id)
              (refund_moved to)
              (refund_added k amount s).refunds)
          + (if refund_with status k (new_refund s.next_refund_id k amount) then 1 else 0)
        ≡ count (refund_with status k) (refund_added k amount s).refunds
          + (if refund_with status k (refund_moved to (new_refund s.next_refund_id k amount))
              then 1
              else 0)
  moved to status =
      moved-count status to k s.next_refund_id (new_refund s.next_refund_id k amount)
        (refund_added k amount s) added.refund_keys (ground arith) refl

  pub completed-counts :
      let t = (finalize_refund_success k s.next_refund_id pid (refund_added k amount s)).1 in
      (pending_refunds k t ≡ 0) × (done_refunds k t ≡ 1)
  completed-counts = rw completed_store (
      unfold claim_status_transition refund_done in
      ground (
        arith,
        moved TransactionStatus.refunded TransactionStatus.pending,
        moved TransactionStatus.refunded TransactionStatus.refunded,
        b.sound k,
      ))

  pub failed-counts :
      (j : ℕ)
      → let t = (finalize_refund_failure s.next_refund_id (refund_added k amount s)).1 in
        (pending_refunds j t ≡ pending_refunds j s) × (done_refunds j t ≡ done_refunds j s)
  unfolding finalize_refund_failure
  failed-counts j = ground (
    arith,
    moved-count TransactionStatus.pending TransactionStatus.failed j s.next_refund_id
        (new_refund s.next_refund_id k amount) (refund_added k amount s) added.refund_keys
        (ground arith) refl,
    moved-count TransactionStatus.refunded TransactionStatus.failed j s.next_refund_id
        (new_refund s.next_refund_id k amount) (refund_added k amount s) added.refund_keys
        (ground arith) refl,
  )
