-- ===== src/Webhook.antt =====
-- app/dao/webhook: the processing of a Fireblocks notification.
pub mod Payload
pub mod Kinds
pub mod Amounts
pub mod Wallets
pub mod Outgoing
pub mod Moves
pub mod Waiting
pub mod Status
pub mod Deposits
pub mod Process
pub mod Atomic
pub mod AtomicDeposits
pub mod Settled
