-- ===== src/Delivery/Race.antt =====
-- A call of verify that has read the OTP before other calls have used up its attempts.
use patheya_express_platform.Schema.{delivery_proof_otp_status_eq}
use patheya_express_platform.Orders.Store.{Store}
