-- ===== src/Lib.antt =====
-- FaultLab: a fault-injection lab for distributed systems, written in Go. Nodes run a replicated
-- key-value store by a gossip protocol, under a fault engine that the control plane steers.
--
-- The parts that are modelled, and the files that model them:
--
-- - internal/node/protocol/gossip. State is GossipProtocol (gossip.go) and the messages (types.go).
--   Clock models vector clocks (vectorClockCompare, and the merging loop of handleState), Value the
--   stored values with isIncomingNewer and compareValueToDigest, Merge handleState, Crud the methods
--   Put, Get, GetWithMetadata and Delete, Peers SetPeers, hasPeer, pickRandomPeer and
--   parseSenderAddress, Digest Tick, handleDigest and OnMessage. A method that mutates the receiver
--   returns the new record, with the envelopes that it sends and the timeline events that it emits.
-- - internal/node/protocol/envelope.go and codec.go: Protocol. JSON is the interface Codec.
-- - internal/fault and internal/node/exec: Fault, the engine and its decisions.
-- - internal/node/protocol/baseline: Baseline, the failure detector, with Start, SetPeers, Tick and
--   OnMessage.
-- - internal/cluster: Cluster, the types of config.go, and Cluster/Manager, the registry of the
--   control plane with all operations of the manager package.
-- - internal/controlplane/command.go and parser.go: ControlPlane, the commands, and
--   ControlPlane/Parser, Parse.
-- - internal/node/runtime/rpc.go: Runtime/FaultParams, SetFaultParams; logger.go: Runtime/Logger, what
--   Printf reports to the control plane, with fmt.Sprintf as an argument.
-- - internal/node/session/node.go: NodeSession, with OnPeersUpdated, the probe loop, Send and the
--   health of the peers; Topology is about OnPeersUpdated, Health about what each operation makes of
--   one peer, Reach about the states of a session, CutOff about a session under its fault engine.
--   What gRPC answers is an argument of the operation.
-- - internal/metrics: Metrics, Compute with the most common state of the nodes, and
--   Metrics/Sessions, the session manager. Times are numbers of nanoseconds that are not negative.
-- - internal/controlplane/service: ControlPlane/Service, the samples and the convergence check, and
--   below it Sessions, the metrics sessions with their statistics and KV_PUT, Timeline, the log
--   lines that BroadcastLog reads and emitTimelineEvent of the gossip node writes, and Nodes, the requests that change the clusters.
-- - internal/experiment: Experiment, Normalize and Validate, and Experiment/Compile, Compile.
--
-- The gossip node calls no fault engine itself: its envelopes go through the node session, which
-- asks the engine before it sends. SetFaultParams of the runtime is how a request of the control
-- plane reaches the engine; SetFaultParams of the manager records the request and passes it on. The
-- service stands between the control plane's commands and the manager; it measures a cluster by what
-- its nodes answer and by the timeline events that gossip nodes log. A compiled experiment is a list
-- of command lines for Parse. A node runs the gossip protocol or the failure detector behind the
-- same interface of Tick, OnMessage and SetPeers.
--
-- Conventions. Prelude has what the parts share. A Go map with string keys is an association list
-- whose order is the order in which `range` visits it, which Go leaves open; IsMap says that no key
-- stands twice. int64 and int are ℤ, with the wrap of `x + 1` written out (inc64); uint64 counters
-- carry their modulus. Strings are compared by code points, as Go compares UTF-8 bytes. The wall
-- clock, the random source, float64 and what a node answers to a request are arguments. A nil map
-- reads as an empty one. Every loop is over a list, so no fuel is needed but in the decimal printer,
-- where a number has fewer digits than its value plus one.
--
-- Not modelled: the rest of the node runtime, the session with the control plane, the channels of
-- the log listeners, the reading of YAML and the dispatch of the control plane's commands, which
-- stand on the operations above; log output, the locks (each method is one step), network and process
-- control, start-up and the generated protobuf code.
pub mod Prelude
pub mod Protocol
pub mod Gossip
pub mod Fault
pub mod Metrics
pub mod Experiment
pub mod Runtime
pub mod NodeSession
mod Tests
pub mod Baseline
pub mod Cluster
pub mod ControlPlane
