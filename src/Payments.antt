-- ===== src/Payments.antt =====
-- Payments: modules/payments. The state machine of a payment attempt, the tables and the claims of
-- PaymentsRepository, the handlers of PaymentsService and the reconciliation sweep.
pub mod Machine
pub mod Store
pub mod Transition
pub mod Service
pub mod Refund
pub mod Claims
pub mod Calls
pub mod Once
pub mod RefundLedger
pub mod RefundSteps
pub mod RefundReach
pub mod RefundCases
pub mod RefundFinal
pub mod RefundOutcome
pub mod Attempts
mod Examples
