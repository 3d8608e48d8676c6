-- ===== src/ControlPlane/Service/Nodes.antt =====
-- internal/controlplane/service/service.go: the requests that change the clusters. The calls that
-- go to a node (Ping, SwapProtocol, StopNode), whose answers are not used, are left out, but for the
-- address that they need.
use Prim.Native.String.{◌++◌}
pub mod Silent
use faultlab.Prelude.{
  ℕ, ◌≡◌, refl, ltb, String, Bool, true, false, not, ◌&&◌, Option, none, some, List, [], ◌∷◌,
  length, map, if◌then◌else◌, ℤ, pos, GoMap, at, ◌==◌, print_int, to_lower, trim_space, arith,
}
use faultlab.Cluster.{FaultState, NodeActionCapabilities, Node, Cluster}
use faultlab.Cluster.Manager.{
  Manager, ManagerError, FaultReply, refused, stored, passed_on, create_cluster, remove_cluster,
  get_clusters, get_cluster, get_nodes, get_node, swap_protocol, register_node, remove_node,
  heartbeat, set_node_capabilities, set_fault_params, change_node,
}
use faultlab.Metrics.{TimelineEvent}
use faultlab.Metrics.Sessions.{is_active, record_timeline_event}
use faultlab.ControlPlane.Service.{Service}

unfoldable pub lifecycle_event : String → String → String → TimelineEvent
lifecycle_event node_id event_type details = record {
  time = 0;
  node_id = node_id;
  key = "__CLUSTER__";
  value = details;
  version = pos 0;
  origin = "";
  source = "";
  event_type = event_type;
  round = 0;
  lww_timestamp = pos 0;
}

module _ {Float : Type 0} where
  -- RecordLifecycleEvent
  unfoldable pub record_lifecycle_event :
      Service Float → String → String → String → String → ℕ → Service Float
  unfolding lifecycle_event
  record_lifecycle_event s cluster_id node_id event_type details now =
      if not (is_active s.metrics cluster_id) then s else record s {
        metrics =
            (record_timeline_event s.metrics cluster_id "__CLUSTER__" now
              (lifecycle_event node_id event_type details)).1;
      }

  created_with :
      Service Float
      → String
      → String
      → ℕ
      → Option ManagerError × Manager Float
      → Option ManagerError × Service Float
  created_with s cluster_id protocol now (some e, m) = (some e, record s { cluster = m })
  created_with s cluster_id protocol now (none, m) = (
    none,
    record_lifecycle_event (record s { cluster = m }) cluster_id "SYSTEM" "CLUSTER_CREATE"
        ("new cluster created with protocol: " ++ protocol) now,
  )

  -- CreateCluster
  unfoldable pub service_create_cluster :
      Service Float → String → String → ℕ → Option ManagerError × Service Float
  unfolding created_with
  service_create_cluster s cluster_id protocol now =
      created_with s cluster_id protocol now (create_cluster s.cluster cluster_id protocol)

  -- GetClusterProtocol; `none` is its error
  unfoldable pub get_cluster_protocol : Service Float → String → Option String
  get_cluster_protocol s cluster_id = elim (get_cluster s.cluster cluster_id) [
    | none ↦ none
    | some c ↦ some (if c.protocol == "" then "gossip" else c.protocol)
  ]

  -- SetClusterProtocol: the nodes that are told, the error, and the state
  unfoldable pub set_cluster_protocol :
      Service Float
      → String
      → String
      → List (String × ℤ × String × String) × Option ManagerError × Service Float
  set_cluster_protocol s cluster_id protocol =
      let key = to_lower (trim_space protocol) in
      elim (get_nodes s.cluster cluster_id) [
        | none ↦ ([], some ManagerError.cluster_missing, s)
        | some nodes ↦
            let (e, m) = swap_protocol s.cluster cluster_id key in
            (map (λ n. (n.address, n.port, n.id, key)) nodes, e, record s { cluster = m })
      ]

  -- The events of SetFaultParams for the crash flag.
  crash_event :
      Service Float → String → String → FaultState Float → FaultState Float → ℕ → Service Float
  crash_event s cluster_id node_id old new now =
      if not old.crashed && new.crashed
      then record_lifecycle_event s cluster_id node_id "CRASH" "node crashed" now
      else if old.crashed && not new.crashed
      then record_lifecycle_event s cluster_id node_id "RECOVER" "node recovered" now
      else s

  -- The events of SetFaultParams for the partition list.
  partition_event :
      Service Float → String → String → FaultState Float → FaultState Float → ℕ → Service Float
  partition_event s cluster_id node_id old new now =
      if ltb (length old.partition) (length new.partition)
      then record_lifecycle_event s cluster_id node_id "PARTITION" "new network partition applied"
          now
      else if ltb (length new.partition) (length old.partition)
      then record_lifecycle_event s cluster_id node_id "HEAL" "network partition healed" now
      else s

  fault_events :
      Service Float → String → String → Option (Node Float) → FaultState Float → ℕ → Service Float
  unfolding crash_event partition_event
  fault_events s cluster_id node_id none fault now = s
  fault_events s cluster_id node_id (some old) fault now =
      partition_event (crash_event s cluster_id node_id old.fault fault now) cluster_id node_id
        old.fault fault now

  -- What follows the manager's SetFaultParams. `answer` says whether the node took a request that
  -- was passed on to it.
  faults_set :
      Service Float
      → String
      → String
      → FaultState Float
      → ℕ
      → (String → ℤ → Bool)
      → FaultReply Float
      → Bool × Service Float
  unfolding fault_events
  faults_set s cluster_id node_id fault now answer (refused e) = (false, s)
  faults_set s cluster_id node_id fault now answer stored =
      (true, fault_events s cluster_id node_id (get_node s.cluster cluster_id node_id) fault now)
  faults_set s cluster_id node_id fault now answer (passed_on host port n params) =
      if answer host port
      then (
        true,
        fault_events s cluster_id node_id (get_node s.cluster cluster_id node_id) fault now,
      )
      else (false, s)

  -- SetFaultParams: whether it succeeds, and the state. `oldNode` is a pointer to the stored node, so
  -- the fields that the code compares after the write are those that the write left.
  unfoldable pub service_set_fault_params :
      Service Float
      → String
      → String
      → FaultState Float
      → ℕ
      → (String → ℤ → Bool)
      → Bool × Service Float
  unfolding faults_set
  service_set_fault_params s cluster_id node_id fault now answer =
      let (reply, m) = set_fault_params s.cluster cluster_id node_id fault in
      faults_set (record s { cluster = m }) cluster_id node_id fault now answer reply

  -- RemoveNode: `none` where it panics, since the error of GetNode is not read; else the address
  -- of the node that is told to stop, the error, and the state
  unfoldable pub service_remove_node :
      Service Float → String → String → Option (String × ℤ × Option ManagerError × Service Float)
  service_remove_node s cluster_id node_id = elim (get_node s.cluster cluster_id node_id) [
    | none ↦ none
    | some n ↦
        let (e, m) = remove_node s.cluster cluster_id node_id in
        some (n.address, n.port, e, record s { cluster = m })
  ]

  -- RegisterNode, given the float64 zero
  unfoldable pub service_register_node :
      Float → Service Float → String → String → String → ℤ → ℕ → Service Float
  service_register_node zero_rate s cluster_id node_id host port now =
      record_lifecycle_event
        (record s {
          cluster = (register_node zero_rate s.cluster cluster_id node_id host port now).0;
        })
        cluster_id node_id "NODE_JOIN"
        ("node joined cluster at " ++ (host ++ (":" ++ print_int port))) now
