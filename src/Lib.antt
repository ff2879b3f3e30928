-- ===== src/Lib.antt =====
-- The order, payment, coupon, wallet, dispatch and session logic of the Patheya Express backend.
--
-- The backend is one NestJS application, apps/api-gateway. A customer places an order, which the
-- pricing engine prices and a coupon may discount; he pays online, from his wallet, or on delivery;
-- restaurant and delivery partner move the order along; a cancellation gives the coupon back and
-- refunds the payment. Modules call each other directly (orders call payments and coupons) or by
-- events (payments tell the orders, orders tell the wallet and dispatch).
--
--   * Schema (Schema/Sales, Schema/Delivery, Schema/Credit): the enums of
--     apps/api-gateway/prisma/schema.prisma and the coupon row.
--   * Pricing: apps/api-gateway/src/modules/pricing, PricingEngineService.calculate and its four
--     calculators.
--   * Coupons: apps/api-gateway/src/modules/coupons, assertCouponEligible and
--     CouponsRepository.reserveRedemption, releaseRedemption and finalizeRedemption, and the calls
--     of CouponsService around them.
--   * Payments: apps/api-gateway/src/modules/payments. Machine has the state machine of an attempt
--     and its inverse table, Store the rows and the claims of PaymentsRepository, Transition
--     transitionPaymentStatus, Service the handlers (createPayment, verifyPayment, processWebhook,
--     the reconciliation sweep), Refund refundPayment.
--   * Orders: apps/api-gateway/src/modules/orders and apps/api-gateway/src/shared/authorization.
--     Access has canAccessOrder, Store the rows and OrdersRepository, Status the operations on the
--     status, Payment those on the payment status, and Refunds refundOrder and the side effects of
--     a cancellation over the tables of orders, payments and coupons together.
--   * Placement: placeOrder and placeOrderInternal of the same module's service. Items prices a
--     request from the menu's rows, Place has the placement around it, over the pricing engine and
--     the ledger of Coupons.
--   * Cart: apps/api-gateway/src/modules/cart, CartService and CartRepository over the same menu.
--   * Delivery: apps/api-gateway/src/modules/delivery. Proof has ProofService and its repository
--     over the rows of Orders, Arrival markRestaurantArrival.
--   * Dispatch: apps/api-gateway/src/modules/dispatch, the claims on assignments of
--     DispatchRepository and acceptAssignment and rejectAssignment; Search, Priority and Assign
--     have assignOrder and selectPartnerByPriority; the expiry job of
--     apps/api-gateway/src/infrastructure/queues, and releaseFromDelivery of modules/delivery.
--   * Wallet: apps/api-gateway/src/modules/wallet, the ledger of WalletRepository and the calls of
--     WalletService; Credits has the credits that belong to no payment of an order.
--   * Auth: apps/api-gateway/src/modules/auth. Store has the rows and AuthRepository, Session
--     login, refreshToken, logout and JwtStrategy.validate, with revokeAllSessions of
--     modules/users, Password forgotPassword and resetPassword, Register registerWithRole.
--   * Common: results, lists, signed numbers, and tables as lists of rows.
--
-- State and calls. A table is the list of its rows, newest first, where ids are numbers that rise
-- with the insertions (the code has random UUIDs; only that they differ is used). A handler is a
-- function from the state to a result and the state after it; a throw is an `err` and leaves what
-- had been written, unless a transaction undoes it. A conditional `updateMany` gives back the count
-- of rows that it moved. Where calls run at the same time, a step is one committed write, and what
-- a call had read before it is an argument of the step, so a stale read is covered. The operations
-- that check and then write without a claim (updateOrderStatus and the two admin overrides) are
-- modelled as one step, and their theorems are about calls that do not overlap; only Orders/Race
-- takes the check and the write of a status change apart. A placement is one step as well, whose
-- check of the idempotency key may be missing: so runs a call that checked before another wrote.
--
-- Numbers. Amounts are in paise, and in pricing also in millionths of a rupee for the tax of five
-- per cent; the code computes in floating point and rounds, the model is exact. Times are numbers.
-- Loops go over lists. Fuel stands only in Dispatch/Retries, for the calls that a search for a
-- partner queues; one more than the limit on the cycles is enough. The retries of a serialization
-- failure are bounded by MAX_SERIALIZATION_RETRIES, which is 2; which attempts are aborted is a
-- parameter.
--
-- Parameters. The payment provider is a record of functions (PaymentProvider), any functions at
-- all: no theorem assumes anything of it. Bcrypt is one, of which a theorem assumes that a code
-- compares with its own hash. The positions of the partners and the pickup, and the distance
-- between two of them, are what the search for a partner is given (Surroundings). The signatures of
-- JWTs and the hash of a token are a record of functions (Crypto), of which theorems assume only
-- what they name, that a token verifies or that one is new. The owner of an order in verifyPayment,
-- the delivery partners that are known in assignDeliveryPartner, and the normal form of a coupon
-- code and the referral code of a user are parameters too, and so is what a placement meets: the
-- answer of the lock in Redis, and how the insertion of the order fails, if it does.
--
-- Not modelled: texts (notes, reasons, messages), logs and metrics beyond what the events record;
-- listings, dashboards and admin queries; profiles and the other modules.
pub mod Auth
pub mod Cart
pub mod Common
pub mod Coupons
pub mod Delivery
pub mod Dispatch
pub mod Orders
pub mod Payments
pub mod Placement
pub mod Pricing
pub mod Schema
pub mod Wallet
