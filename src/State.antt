-- ===== src/State.antt =====
-- internal/state: the state file and the operations of Store and AccountRegistry.
pub mod Types
pub mod Json
pub mod Written
pub mod Persist
pub mod Actions
pub mod Display
pub mod Plans
pub mod Sequence
pub mod Accounts
pub mod Snapshots
pub mod Schedules
pub mod Logs
pub mod Scope
pub mod Migration
pub mod Session
pub mod Locks
