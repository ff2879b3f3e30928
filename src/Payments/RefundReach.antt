-- ===== src/Payments/RefundReach.antt =====
-- The refunds of a payment over any history of claims, completions, failures and settlements.
use patheya_express_platform.Schema.{transaction_status_eq}
use patheya_express_platform.Payments.Store.{Store}
