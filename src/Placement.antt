-- ===== src/Placement.antt =====
-- Placing an order: placeOrder and placeOrderInternal of
-- modules/orders/services/orders.service.ts, over the menu, the pricing engine and the coupons.
pub mod Items
pub mod Place
pub mod Steps
pub mod Once
pub mod Ledger
pub mod Menu
pub mod Register
mod Examples
