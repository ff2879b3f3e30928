-- ===== src/Payments/Store.antt =====
-- The rows of `payments` and `refunds` and repositories/payments.repository.ts. Amounts are in
-- paise; the amount that a caller asks for may be negative.
use patheya_express_platform.Common.{
  ℕ, suc, Bool, true, false, not, ◌&&◌, ◌||◌, Option, none, some, List, [], ◌∷◌, ltb, ◌==◌, ◌===◌,
  if◌then◌else◌, is_id, includes, find, count, any,
}
use patheya_express_platform.Common.Int.{ℤ, pos, ◌+ℤ◌, leb_ℤ, ltb_ℤ}
use patheya_express_platform.Common.Table.{update_where}
use patheya_express_platform.Schema.{TransactionStatus, transaction_status_eq}

pub data PaymentMethod : Type 0 where
  upi card netbanking wallet cod : PaymentMethod

pub record Payment : Type 0 where
  pub id : ℕ
  pub order_id : ℕ
  pub amount : ℤ
  pub status : TransactionStatus
  pub provider_order_id : Option ℕ
  pub provider_payment_id : Option ℕ
  pub method : Option PaymentMethod
  pub attempt_number : ℕ
  pub is_active : Bool

pub record Refund : Type 0 where
  pub id : ℕ
  pub payment_id : ℕ
  pub amount : ℤ
  pub status : TransactionStatus

-- What the handlers publish and write besides the two tables, newest first.
pub data Event : Type 0 where
  payment_success payment_failed : (payment_id order_id : ℕ) → Event
  payment_refunded : (payment_id order_id : ℕ) → ℤ → Event
  notification_job : (order_id : ℕ) → Event
  refund_audit : (payment_id : ℕ) → Event
  refund_failed_metric : Event
  webhook_event : ℕ → Event

pub record Store : Type 0 where
  pub payments : List Payment
  pub refunds : List Refund
  pub next_payment_id : ℕ
  pub next_refund_id : ℕ
  pub events : List Event

abbrev pub has_id : ℕ → Payment → Bool
has_id id p = p.id == id

unfoldable pub find_by_id : ℕ → Store → Option Payment
find_by_id id s = find (has_id id) s.payments

unfoldable pub find_by_provider_order_id : ℕ → Store → Option Payment
find_by_provider_order_id id s = find (λ p. is_id p.provider_order_id id) s.payments

-- The row with the greatest attempt number, `orderBy: { attemptNumber: 'desc' }`.
later_attempt : Payment → Option Payment → Payment
later_attempt p none = p
later_attempt p (some q) = if ltb p.attempt_number q.attempt_number then q else p

latest_of : ℕ → List Payment → Option Payment
latest_of order_id [] = none
latest_of order_id (p ∷ ps) =
    let rest = latest_of order_id ps in
    if p.order_id == order_id then some (later_attempt p rest) else rest

unfoldable pub find_latest_attempt : ℕ → Store → Option Payment
unfolding latest_of later_attempt
find_latest_attempt order_id s = latest_of order_id s.payments

abbrev pub is_active_for : ℕ → Payment → Bool
is_active_for order_id p = (p.order_id == order_id) && p.is_active

unfoldable pub find_active_payment_for_order : ℕ → Store → Option Payment
find_active_payment_for_order order_id s = find (is_active_for order_id) s.payments

abbrev deactivate : Payment → Payment
deactivate p = record p { is_active = false }

unfoldable pub deactivate_order_attempts : ℕ → Store → Store
deactivate_order_attempts order_id s = record s {
  payments = update_where (is_active_for order_id) deactivate s.payments;
}

-- `...(value ? { field: value } : {})`
abbrev pub or_keep {ℓ} : {A : Type ℓ} → Option A → Option A → Option A
or_keep none old = old
or_keep (some a) old = some a

abbrev pub claimable : ℕ → List TransactionStatus → Payment → Bool
claimable id allowed p = (p.id == id) && includes allowed p.status

abbrev pub transitioned_row :
    TransactionStatus → Option ℕ → Option PaymentMethod → Payment → Payment
transitioned_row next provider_payment_id method p = record p {
  status = next;
  provider_payment_id = or_keep provider_payment_id p.provider_payment_id;
  method = or_keep method p.method;
}

-- `claimStatusTransition`: the count of rows that it moved, and the table after.
unfoldable pub claim_status_transition :
    ℕ
    → List TransactionStatus
    → TransactionStatus
    → Option ℕ
    → Option PaymentMethod
    → Store
    → ℕ × Store
claim_status_transition id allowed next provider_payment_id method s = (
  count (claimable id allowed) s.payments,
  record s {
    payments =
        update_where (claimable id allowed) (transitioned_row next provider_payment_id method)
          s.payments;
  },
)

-- `createPayment`, with the columns that have defaults.
unfoldable pub insert_payment : ℕ → ℤ → ℕ → ℕ → Store → ℕ × Store
insert_payment order_id amount provider_order_id attempt s = (
  s.next_payment_id,
  record s {
    payments =
        record {
          id = s.next_payment_id;
          order_id = order_id;
          amount = amount;
          status = TransactionStatus.pending;
          provider_order_id = some provider_order_id;
          provider_payment_id = none;
          method = none;
          attempt_number = attempt;
          is_active = true;
        }
        ∷ s.payments;
    next_payment_id = suc s.next_payment_id;
  },
)

pub data ClaimRefundResult : Type 0 where
  claimed : Payment → ℕ → ClaimRefundResult
  refund_not_found not_success already_refunded invalid_amount refund_in_progress :
      ClaimRefundResult

abbrev pub refund_with : TransactionStatus → ℕ → Refund → Bool
refund_with status payment_id r = (r.payment_id == payment_id) && (r.status === status)

abbrev pub new_refund : ℕ → ℕ → ℤ → Refund
new_refund id payment_id amount = record {
  id = id;
  payment_id = payment_id;
  amount = amount;
  status = TransactionStatus.pending;
}

-- The tests of `claimRefund` once the payment is read, in the order of the source.
-- `AMOUNT_TOLERANCE` is one paisa.
unfoldable pub claim_refund_of : ℤ → Payment → Store → ClaimRefundResult × Store
claim_refund_of amount p s =
    if p.status === TransactionStatus.refunded
    then (already_refunded, s)
    else if not (p.status === TransactionStatus.success)
    then (not_success, s)
    else if leb_ℤ amount (pos 0) || ltb_ℤ (p.amount +ℤ pos 1) amount
    then (invalid_amount, s)
    else if any (refund_with TransactionStatus.pending p.id) s.refunds
    then (refund_in_progress, s)
    else (
      claimed p s.next_refund_id,
      record s {
        refunds = new_refund s.next_refund_id p.id amount ∷ s.refunds;
        next_refund_id = suc s.next_refund_id;
      },
    )

-- `claimRefund`: one transaction under the advisory lock of the payment.
unfoldable pub claim_refund : ℕ → ℤ → Store → ClaimRefundResult × Store
claim_refund payment_id amount s = elim (find_by_id payment_id s) [
  | none ↦ (refund_not_found, s)
  | some p ↦ claim_refund_of amount p s
]

abbrev pub open_refund : ℕ → Refund → Bool
open_refund id r = (r.id == id) && (r.status === TransactionStatus.pending)

abbrev pub refund_moved : TransactionStatus → Refund → Refund
refund_moved next r = record r { status = next }

-- `finalizeRefundSuccess`: the claim of the refund row first, then that of the payment.
unfoldable pub finalize_refund_success : ℕ → ℕ → Option ℕ → Store → (ℕ × ℕ) × Store
unfolding claim_status_transition
finalize_refund_success payment_id refund_id provider_payment_id s =
    let refund_claim = count (open_refund refund_id) s.refunds in
    let moved = record s {
      refunds =
          update_where (open_refund refund_id) (refund_moved TransactionStatus.refunded) s.refunds;
    } in
    let (payment_claim, t) =
      claim_status_transition payment_id (TransactionStatus.success ∷ []) TransactionStatus.refunded
        provider_payment_id none moved in
    if refund_claim == 0 then ((0, 0), s) else ((payment_claim, refund_claim), t)

-- `finalizeRefundFailure`
unfoldable pub finalize_refund_failure : ℕ → Store → ℕ × Store
finalize_refund_failure refund_id s = (
  count (open_refund refund_id) s.refunds,
  record s {
    refunds =
        update_where (open_refund refund_id) (refund_moved TransactionStatus.failed) s.refunds;
  },
)

abbrev pub publish : Event → Store → Store
publish e s = record s { events = e ∷ s.events }
