-- ===== src/Payments/Machine.antt =====
-- constants/payment-state-machine.ts and Validators/payment-status.validator.ts
use patheya_express_platform.Common.{
  ℕ, ◌<◌, ◌≡◌, ◌↔◌, true, not, List, [], ◌∷◌, arith, filter, includes, conflict, Action, throw_if,
}
use patheya_express_platform.Schema.{TransactionStatus, transaction_status_eq}

unfoldable pub payment_state_machine : TransactionStatus → List TransactionStatus
payment_state_machine TransactionStatus.pending =
    TransactionStatus.success ∷ TransactionStatus.failed ∷ []
payment_state_machine TransactionStatus.success = TransactionStatus.refunded ∷ []
payment_state_machine TransactionStatus.failed = []
payment_state_machine TransactionStatus.refunded = []

-- `Object.keys(PAYMENT_STATE_MACHINE)`, in the order of the declaration.
abbrev machine_keys : List TransactionStatus
machine_keys =
    TransactionStatus.pending ∷ TransactionStatus.success ∷ TransactionStatus.failed
    ∷ TransactionStatus.refunded ∷ []

unfoldable pub get_allowed_source_statuses : TransactionStatus → List TransactionStatus
unfolding payment_state_machine
get_allowed_source_statuses target =
    filter (λ from. includes (payment_state_machine from) target) machine_keys

-- `PaymentStatusValidator.validateTransition`
unfoldable pub validate_transition {ℓ} :
    {S : Type ℓ} → TransactionStatus → TransactionStatus → Action S (Unit {0})
validate_transition current next =
    throw_if (not (includes (payment_state_machine current) next)) conflict

-- How far along its life a payment is.
abbrev pub stage : TransactionStatus → ℕ
stage TransactionStatus.pending = 0
stage TransactionStatus.success = 1
stage TransactionStatus.failed = 1
stage TransactionStatus.refunded = 2

-- The inverse table lists exactly the statuses that the machine leads to the target from, and each
-- such step goes forward.
pub sources_invert_machine :
    (from target : TransactionStatus)
    → ((includes (get_allowed_source_statuses target) from ≡ true)
        ↔ (includes (payment_state_machine from) target ≡ true))
      × (includes (get_allowed_source_statuses target) from ≡ true → stage from < stage target)
unfolding get_allowed_source_statuses
sources_invert_machine from target = ground arith
