-- ===== src/Outbound.antt =====
-- Transactions that leave the platform: services/signer/src and services/broadcaster/src over the
-- tables and the queue that they share.
pub mod Database
pub mod Signer
pub mod Broadcaster
pub mod Invariant
pub mod History
