-- ===== src/Cluster/Manager.antt =====
-- The operations of internal/cluster/manager: cluster_manager.go, nodes_manager.go, manager.go and
-- heartbeat_manager.go. An error is its kind, not its text.
pub mod Registry
pub mod Invariant
pub mod Cleanup
pub mod Reach
pub mod Survival
pub mod Clusters
use faultlab.Prelude.{
  ℕ, ◌-◌, ltb, String, Bool, true, false, not, ◌&&◌, ◌||◌, Option, none, some, List, [], ◌∷◌, map,
  if◌then◌else◌, ℤ, pos, GoMap, at, insert, delete, ◌==◌, trim_space, to_lower,
}
use faultlab.Cluster.{
  FaultState, NodeActionCapabilities, Node, Cluster, default_fault_state, no_capabilities,
}

pub data ManagerError : Type 0 where
  unsupported_protocol cluster_exists cluster_missing node_missing : ManagerError

-- The clusters, and whether a NodeSession is set.
pub record Manager (Float : Type 0) : Type 0 where
  pub clusters : GoMap (Cluster Float)
  pub has_session : Bool

-- What SetFaultParams of the manager does after the registry: it fails, is done, or passes the
-- request on to the node at a host and port.
pub data FaultReply (Float : Type 0) : Type 0 where
  refused : ManagerError → FaultReply Float
  stored : FaultReply Float
  passed_on : String → ℤ → String → FaultState Float → FaultReply Float

-- The protocol's name as CreateCluster and SwapProtocol read it.
unfoldable pub chosen_protocol : String → Option String
chosen_protocol protocol =
    let p = to_lower (trim_space protocol) in
    let q = if p == "" then "gossip" else p in if q == "gossip" || q == "raft" then some q else none

module _ {Float : Type 0} where
  create_chosen :
      Option String
      → Option (Cluster Float)
      → Manager Float
      → String
      → Option ManagerError × Manager Float
  create_chosen none found m cluster_id = (some unsupported_protocol, m)
  create_chosen (some protocol) (some _) m cluster_id = (some cluster_exists, m)
  create_chosen (some protocol) none m cluster_id = (
    none,
    record m {
      clusters =
          insert m.clusters cluster_id record { id = cluster_id; protocol = protocol; nodes = [] };
    },
  )

  -- CreateCluster
  unfoldable pub create_cluster :
      Manager Float → String → String → Option ManagerError × Manager Float
  unfolding create_chosen
  create_cluster m cluster_id protocol =
      create_chosen (chosen_protocol protocol) (at m.clusters cluster_id) m cluster_id

  -- RemoveCluster
  unfoldable pub remove_cluster : Manager Float → String → Option ManagerError × Manager Float
  remove_cluster m cluster_id = elim (at m.clusters cluster_id) [
    | none ↦ (some cluster_missing, m)
    | some _ ↦ (none, record m { clusters = delete m.clusters cluster_id })
  ]

  -- GetClusters
  unfoldable pub get_clusters : Manager Float → List String
  get_clusters m = map (λ e. e.0) m.clusters

  -- GetCluster; `none` is its error
  unfoldable pub get_cluster : Manager Float → String → Option (Cluster Float)
  get_cluster m cluster_id = at m.clusters cluster_id

  swap_chosen :
      Option String
      → Option (Cluster Float)
      → Manager Float
      → String
      → Option ManagerError × Manager Float
  swap_chosen none found m cluster_id = (some unsupported_protocol, m)
  swap_chosen (some protocol) none m cluster_id = (some cluster_missing, m)
  swap_chosen (some protocol) (some c) m cluster_id = (
    none,
    record m { clusters = insert m.clusters cluster_id (record c { protocol = protocol }) },
  )

  -- SwapProtocol
  unfoldable pub swap_protocol :
      Manager Float → String → String → Option ManagerError × Manager Float
  unfolding swap_chosen
  swap_protocol m cluster_id protocol =
      swap_chosen (chosen_protocol protocol) (at m.clusters cluster_id) m cluster_id

  -- What RegisterNode puts in for a new node.
  unfoldable pub fresh_node : Float → String → String → ℤ → ℕ → Node Float
  fresh_node zero_rate node_id address port now = record {
    id = node_id;
    address = address;
    port = port;
    last_seen = now;
    status = "active";
    fault = default_fault_state zero_rate;
    active_protocol_key = "";
    active_protocol_epoch = 0;
    capabilities = no_capabilities;
    capabilities_at = pos 0;
  }

  -- The cluster, or a new one with the protocol gossip.
  cluster_or_new : Option (Cluster Float) → String → Cluster Float
  cluster_or_new none cluster_id = record { id = cluster_id; protocol = "gossip"; nodes = [] }
  cluster_or_new (some c) cluster_id = c

  -- The loop that collects the other nodes.
  other_nodes : String → GoMap (Node Float) → List (Node Float)
  other_nodes node_id [] = []
  other_nodes node_id ((k, n) ∷ nodes) =
      let rest = other_nodes node_id nodes in if n.id == node_id then rest else n ∷ rest

  -- RegisterNode: the new state and the peers
  unfoldable pub register_node :
      Float → Manager Float → String → String → String → ℤ → ℕ → Manager Float × List (Node Float)
  unfolding fresh_node cluster_or_new other_nodes
  register_node zero_rate m cluster_id node_id address port now =
      let c = cluster_or_new (at m.clusters cluster_id) cluster_id in
      let nodes = insert c.nodes node_id (fresh_node zero_rate node_id address port now) in
      (
        record m { clusters = insert m.clusters cluster_id (record c { nodes = nodes }) },
        other_nodes node_id nodes,
      )

  with_node : Cluster Float → String → Option (Node Float) → Cluster Float
  with_node c node_id none = record c { nodes = delete c.nodes node_id }
  with_node c node_id (some n) = record c { nodes = insert c.nodes node_id n }

  -- A change of one node's entry, with the two look-ups that come before it: the new entry, or
  -- none to delete it.
  pub change_node :
      Option (Cluster Float)
      → Manager Float
      → String
      → String
      → (Node Float → Option (Node Float))
      → Option ManagerError × Manager Float
  unfolding with_node
  change_node none m cluster_id node_id f = (some cluster_missing, m)
  change_node (some c) m cluster_id node_id f = elim (at c.nodes node_id) [
    | none ↦ (some node_missing, m)
    | some n ↦
        (none, record m { clusters = insert m.clusters cluster_id (with_node c node_id (f n)) })
  ]

  -- RemoveNode
  unfoldable pub remove_node : Manager Float → String → String → Option ManagerError × Manager Float
  unfolding change_node
  remove_node m cluster_id node_id =
      change_node (at m.clusters cluster_id) m cluster_id node_id (λ n. none)

  -- GetNodes; `none` is its error
  unfoldable pub get_nodes : Manager Float → String → Option (List (Node Float))
  get_nodes m cluster_id = elim (at m.clusters cluster_id) [
    | none ↦ none
    | some c ↦ some (map (λ e. e.1) c.nodes)
  ]

  -- GetNode; `none` is its error
  unfoldable pub get_node : Manager Float → String → String → Option (Node Float)
  get_node m cluster_id node_id = elim (at m.clusters cluster_id) [
    | none ↦ none
    | some c ↦ at c.nodes node_id
  ]

  -- Heartbeat
  unfoldable pub heartbeat :
      Manager Float → String → String → ℕ → Option ManagerError × Manager Float
  unfolding change_node
  heartbeat m cluster_id node_id now =
      change_node (at m.clusters cluster_id) m cluster_id node_id
        (λ n. some (record n { last_seen = now; status = "active" }))

  -- SetNodeCapabilities
  unfoldable pub set_node_capabilities :
      Manager Float
      → String
      → String
      → String
      → ℕ
      → NodeActionCapabilities
      → ℤ
      → Option ManagerError × Manager Float
  unfolding change_node
  set_node_capabilities m cluster_id node_id key epoch actions reported_at =
      change_node (at m.clusters cluster_id) m cluster_id node_id (λ n. some (record n {
        active_protocol_key = key;
        active_protocol_epoch = epoch;
        capabilities = actions;
        capabilities_at = reported_at;
      }))

  -- SetNodeSession
  unfoldable pub set_node_session : Manager Float → Bool → Manager Float
  set_node_session m given = record m { has_session = given }

  fault_reply :
      Option ManagerError
      → Bool
      → Option (Node Float)
      → String
      → FaultState Float
      → FaultReply Float
  fault_reply (some e) session n node_id params = refused e
  fault_reply none false n node_id params = stored
  fault_reply none true none node_id params = stored
  fault_reply none true (some n) node_id params = passed_on n.address n.port node_id params

  -- SetFaultParams
  unfoldable pub set_fault_params :
      Manager Float → String → String → FaultState Float → FaultReply Float × Manager Float
  unfolding change_node fault_reply
  set_fault_params m cluster_id node_id params =
      let (error, m') = change_node (at m.clusters cluster_id) m cluster_id node_id (λ n.
        some
          (record n { fault = params; status = if params.crashed then "crashed" else "active" })) in
      (fault_reply error m.has_session (get_node m cluster_id node_id) node_id params, m')

  -- One round of the inner loop of Cleanup, on the map that the loop ranges over.
  cleanup_node : ℕ → ℕ → GoMap (Node Float) → String → Node Float → GoMap (Node Float)
  cleanup_node timeout now nodes id n =
      if ltb timeout (now - n.last_seen)
      then (if not n.fault.crashed
          then delete nodes id
          else insert nodes id (record n { status = "crashed" }))
      else nodes

  pub cleanup_nodes :
      ℕ → (String → ℕ) → GoMap (Node Float) → GoMap (Node Float) → GoMap (Node Float)
  unfolding cleanup_node
  cleanup_nodes timeout now nodes [] = nodes
  cleanup_nodes timeout now nodes ((id, n) ∷ rest) =
      cleanup_nodes timeout now (cleanup_node timeout (now id) nodes id n) rest

  pub cleanup_clusters : ℕ → (String → String → ℕ) → GoMap (Cluster Float) → GoMap (Cluster Float)
  unfolding cleanup_nodes
  cleanup_clusters timeout now [] = []
  cleanup_clusters timeout now ((k, c) ∷ clusters) =
      (k, record c { nodes = cleanup_nodes timeout (now k) c.nodes c.nodes })
      ∷ cleanup_clusters timeout now clusters

  -- One round of the endless loop of Cleanup. `now` is the clock at each visit of a node.
  unfoldable pub cleanup : ℕ → (String → String → ℕ) → Manager Float → Manager Float
  unfolding cleanup_clusters
  cleanup timeout now m = record m { clusters = cleanup_clusters timeout now m.clusters }

-- NewManager
unfoldable pub new_manager : {Float : Type 0} → Bool → Manager Float
new_manager session = record { clusters = []; has_session = session }
