-- ===== src/Schema.antt =====
-- The enums of apps/api-gateway/prisma/schema.prisma, which the services read through the
-- generated client.
mod Sales
mod Delivery
mod Credit
pub use Sales.*
pub use Delivery.*
pub use Credit.*
