-- ===== src/Delivery.antt =====
-- What a delivery partner proves on the way: modules/delivery.
pub mod Proof
pub mod Handover
pub mod Lockout
pub mod Race
pub mod Arrival
mod Examples
