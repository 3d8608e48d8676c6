-- ===== src/Runtime.antt =====
-- The runtime of a node (internal/node/runtime).
pub mod FaultParams
pub mod Logger
