-- ===== src/Payments/Transition.antt =====
-- PaymentsService.transitionPaymentStatus, the one path by which a payment's status is written.
use patheya_express_platform.Common.{
  ℕ, Bool, true, false, Option, none, some, ◌==◌, ◌===◌, if◌then◌else◌, Action, ok, err, not_found,
  conflict, type_error, ◌>>◌,
}
use patheya_express_platform.Schema.{TransactionStatus, transaction_status_eq}
use patheya_express_platform.Payments.Machine.{get_allowed_source_statuses, validate_transition}
use patheya_express_platform.Payments.Store.{
  Store, Payment, PaymentMethod, find_by_id, claim_status_transition,
}

-- The last read of the function: `(await findById(paymentId))!`, once more after the claim.
unfoldable pub reread : ℕ → TransactionStatus → ℕ → Action Store (Payment × Bool)
reread id next count s = elim (find_by_id id s) [
  | none ↦ (err type_error, s)
  | some current ↦
      if count == 0
      then (if current.status === next then (ok (current, false), s) else (err conflict, s))
      else (ok (current, true), s)
]

abbrev claim_then_reread :
    ℕ → TransactionStatus → Option ℕ → Option PaymentMethod → Action Store (Payment × Bool)
claim_then_reread id next provider_payment_id method s =
    let (count, t) =
      claim_status_transition id (get_allowed_source_statuses next) next provider_payment_id method
        s in
    reread id next count t

-- The function once it has read the row as `seen`. Other calls may commit between that read and the
-- claim, so `seen` need not be what `s` holds.
unfoldable pub transition_seen :
    Payment
    → ℕ
    → TransactionStatus
    → Option ℕ
    → Option PaymentMethod
    → Action Store (Payment × Bool)
transition_seen seen id next provider_payment_id method s =
    if seen.status === next
    then (ok (seen, false), s)
    else (validate_transition seen.status next
          >> claim_then_reread id next provider_payment_id method)
        s

-- `transitionPaymentStatus`, when nothing comes in between. The flag tells whether this call moved
-- the row.
unfoldable pub transition_payment_status :
    ℕ → TransactionStatus → Option ℕ → Option PaymentMethod → Action Store (Payment × Bool)
transition_payment_status id next provider_payment_id method s = elim (find_by_id id s) [
  | none ↦ (err not_found, s)
  | some seen ↦ transition_seen seen id next provider_payment_id method s
]
