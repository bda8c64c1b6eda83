-- ===== src/AnchorWorker.antt =====
-- services/anchor-worker/src: the worker that anchors the indexed events of a chain.
pub mod Merkle
pub mod Events
pub mod Message
pub mod Cycle
