-- ===== src/Tests.antt =====
-- Concrete tables, runs of the code on them, and the theorems at concrete inputs.
pub mod Data
mod Balances
mod Locks
mod Ledger
mod Transfers
mod Api
mod Requests
mod Direct
mod Notifications
mod Treasury
mod Creation
mod Fireblocks
