-- ===== src/Payments/RefundSteps.antt =====
-- What failing and completing a refund do to the refunds of each payment.
use patheya_express_platform.Common.{
  ℕ, ◌+◌, ◌≡◌, ◌⊎◌, inl, inr, refl, ap, Option, none, some, [], ◌∷◌, arith, find, count, ◌==◌,
  ◌===◌, if◌then◌else◌, Option-cases, Bool-cases,
}
use patheya_express_platform.Common.Table.{
  update_where, map_found, IsKeyed, IsKeyed-update_where, count-claim, update_where_none,
}
use patheya_express_platform.Schema.{TransactionStatus, transaction_status_eq}
use patheya_express_platform.Payments.Machine.{get_allowed_source_statuses, sources_invert_machine}
use patheya_express_platform.Payments.Store.{
  Store, Payment, PaymentMethod, Refund, refund_with, open_refund, refund_moved, find_by_id,
  claimable, transitioned_row, claim_status_transition, finalize_refund_success,
  finalize_refund_failure,
}
use patheya_express_platform.Payments.Claims.{IsKeyedStore, claim-find, find_by_id-id}
use patheya_express_platform.Payments.RefundLedger.{
  pending_refunds, done_refunds, Agrees, IsSound, IsValid, moved-count, not_open,
}

fails_pending-IsSound :
    (j id : ℕ) (r : Refund) (s : Store)
    → IsValid s
    → find (λ (x : Refund). x.id == id) s.refunds ≡ some r
    → r.status ≡ TransactionStatus.pending
    → IsSound (finalize_refund_failure id s).1 j
unfolding finalize_refund_failure find_by_id
fails_pending-IsSound j id r s b e h = ground (
  arith,
  moved-count TransactionStatus.pending TransactionStatus.failed j id r s b.refund_keys e h,
  moved-count TransactionStatus.refunded TransactionStatus.failed j id r s b.refund_keys e h,
  b.sound j,
)

fails_none :
    (id : ℕ) (s : Store)
    → count (open_refund id) s.refunds ≡ 0
    → (finalize_refund_failure id s).1 ≡ s
unfolding finalize_refund_failure
fails_none id s h =
    ap (λ rs. record s { refunds = rs })
      (update_where_none (open_refund id) (refund_moved TransactionStatus.failed) s.refunds h)

fails-keys :
    (id : ℕ) (s : Store)
    → IsValid s
    → IsKeyed
        (λ (x : Refund). x.id)
        (finalize_refund_failure id s).1.next_refund_id
        (finalize_refund_failure id s).1.refunds
unfolding finalize_refund_failure
fails-keys id s b =
    IsKeyed-update_where (λ (x : Refund). x.id) (open_refund id)
      (refund_moved TransactionStatus.failed) s.next_refund_id s.refunds (λ x. refl) b.refund_keys

fails-payments : (id : ℕ) (s : Store) → IsValid s → IsKeyedStore (finalize_refund_failure id s).1
unfolding finalize_refund_failure
fails-payments id s b = b.payment_keys

-- Either the refund is pending, or nothing is open under its id.
pub open_cases :
    (id : ℕ) (s : Store)
    → IsValid s
    → (count (open_refund id) s.refunds ≡ 0)
      ⊎ ((r : Refund) × (find (λ (x : Refund). x.id == id) s.refunds ≡ some r)
          × (r.status ≡ TransactionStatus.pending))
open_cases id s b = elim (Option-cases (find (λ (x : Refund). x.id == id) s.refunds)) [
  | inl e ↦ inl (not_open id s none b.refund_keys e refl)
  | inr (r, e) ↦ elim (Bool-cases (r.status === TransactionStatus.pending)) [
    | inl h ↦ inr (r, e, ground arith)
    | inr h ↦ inl (not_open id s (some r) b.refund_keys e (ground arith))
  ]
]

pub fails-IsValid : (id : ℕ) (s : Store) → IsValid s → IsValid (finalize_refund_failure id s).1
fails-IsValid id s b = elim (open_cases id s b) [
  | inl e ↦ rw (fails_none id s e) b
  | inr (r, e, h) ↦ record {
    payment_keys = fails-payments id s b;
    refund_keys = fails-keys id s b;
    sound = λ j. fails_pending-IsSound j id r s b e h;
  }
]

-- The store after a pending refund has been completed, but for the payment.
unfoldable pub refund_done : ℕ → Store → Store
refund_done id s = record s {
  refunds = update_where (open_refund id) (refund_moved TransactionStatus.refunded) s.refunds;
}

pub completes_pending :
    (k id : ℕ) (pid : Option ℕ) (r : Refund) (s : Store)
    → IsValid s
    → find (λ (x : Refund). x.id == id) s.refunds ≡ some r
    → r.status ≡ TransactionStatus.pending
    → (finalize_refund_success k id pid s).1
      ≡ (claim_status_transition k
          (TransactionStatus.success ∷ [])
          TransactionStatus.refunded
          pid
          none
          (refund_done id s)).1
unfolding finalize_refund_success refund_done
completes_pending k id pid r s b e h = ground (
  arith,
  count-claim (λ (x : Refund). x.id) (λ x. x.status === TransactionStatus.pending) id
      s.next_refund_id s.refunds b.refund_keys,
  e,
)

pub completed-Agrees :
    (j k m n m' n' : ℕ) (pid : Option ℕ) (o : Option Payment)
    → Agrees m n o
    → ((p : Payment) → o ≡ some p → p.id ≡ j)
    → m' + (if k == j then 1 else 0) ≡ m
    → n' ≡ n + (if k == j then 1 else 0)
    → Agrees m' n' (
        map_found
          (claimable k (TransactionStatus.success ∷ []))
          (transitioned_row TransactionStatus.refunded pid none)
          o)
completed-Agrees j k m n m' n' pid none b id hm hn = ground arith
completed-Agrees j k m n m' n' pid (some p) b id hm hn = ground (arith, id p refl)

pub settled-Agrees :
    (k m n : ℕ) (next : TransactionStatus) (pid : Option ℕ) (method : Option PaymentMethod)
    (o : Option Payment)
    → (next ≡ TransactionStatus.success) ⊎ (next ≡ TransactionStatus.failed)
    → Agrees m n o
    → Agrees m n (
        map_found
          (claimable k (get_allowed_source_statuses next))
          (transitioned_row next pid method)
          o)
settled-Agrees k m n next pid method none c b = b
settled-Agrees k m n next pid method (some p) c b =
    ground (arith, (sources_invert_machine p.status next).1)

pub completes-IsSound :
    (j id : ℕ) (pid : Option ℕ) (r : Refund) (s : Store)
    → IsValid s
    → find (λ (x : Refund). x.id == id) s.refunds ≡ some r
    → r.status ≡ TransactionStatus.pending
    → IsSound
        (claim_status_transition r.payment_id
          (TransactionStatus.success ∷ [])
          TransactionStatus.refunded
          pid
          none
          (refund_done id s)).1
        j
completes-IsSound j id pid r s b e h =
    rw
      (claim-find j r.payment_id (TransactionStatus.success ∷ []) TransactionStatus.refunded pid
        none (refund_done id s))
      (unfold refund_done find_by_id claim_status_transition in
        (completed-Agrees j r.payment_id (pending_refunds j s) (done_refunds j s)
          (count (refund_with TransactionStatus.pending j) (refund_done id s).refunds)
          (count (refund_with TransactionStatus.refunded j) (refund_done id s).refunds) pid
          (find_by_id j s) (b.sound j) (find_by_id-id j s)
          (ground (
            arith,
            moved-count TransactionStatus.pending TransactionStatus.refunded j id r s b.refund_keys
                e h,
          ))
          (ground (
            arith,
            moved-count TransactionStatus.refunded TransactionStatus.refunded j id r s b.refund_keys
                e h,
          ))))

pub completes-refund_keys :
    (k id : ℕ) (pid : Option ℕ) (s : Store)
    → IsValid s
    → IsKeyed
        (λ (x : Refund). x.id)
        s.next_refund_id
        (claim_status_transition k
          (TransactionStatus.success ∷ [])
          TransactionStatus.refunded
          pid
          none
          (refund_done id s)).1.refunds
unfolding claim_status_transition refund_done
completes-refund_keys k id pid s b =
    IsKeyed-update_where (λ (x : Refund). x.id) (open_refund id)
      (refund_moved TransactionStatus.refunded) s.next_refund_id s.refunds (λ x. refl) b.refund_keys
