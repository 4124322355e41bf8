-- ===== src/Tests.antt =====
-- Runs of the model on concrete data.
pub mod Data
pub mod Store
pub mod Plans
pub mod Accounts
pub mod Claims
pub mod Planning
pub mod Execution
pub mod Purchases
pub mod Amounts
pub mod Locks
pub mod Checkins
pub mod Sessions
