-- ===== src/Orders.antt =====
-- Orders: modules/orders and shared/authorization/order-access.util.ts. Who may touch an order, the
-- rows that an order owns, and the operations that move its status and its payment status.
pub mod Access
pub mod Store
pub mod Status
pub mod Payment
pub mod Gates
pub mod Paid
pub mod Once
pub mod Race
pub mod Refunds
pub mod Shares
pub mod Moves
pub mod TimeoutMoves
pub mod Terminal
mod Examples
