-- ===== src/Tests.antt =====
-- The theorems at concrete inputs, and runs of the definitions.
mod GossipValues
mod GossipStores
mod GossipTraffic
mod FailureDetector
mod Registry
mod CommandLine
mod Faults
mod Measurements
mod Services
mod Scenarios
mod NodeSessions
