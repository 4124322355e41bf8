-- ===== src/Quota.antt =====
-- Amounts of money, of internal/quota.
pub mod Money
pub mod Amount
pub mod Policy
