-- ===== src/Gossip.antt =====
-- The gossip protocol (internal/node/protocol/gossip): its state, and the parts that act on it.
pub mod Clock
pub mod Value
pub mod State
pub mod Merge
pub mod Crud
pub mod Peers
pub mod Digest
