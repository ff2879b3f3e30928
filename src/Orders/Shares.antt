-- ===== src/Orders/Shares.antt =====
-- How a refund is split between the wallet and the payment provider.
