-- ===== src/ControlPlane/Service.antt =====
-- internal/controlplane/service/service.go: the metrics sessions of a cluster, the statistics of its
-- traffic, and the key-value requests. What a node answers to an action is an argument: `ask` for
-- KV_GET by address, port, node and key, with the payload decoded. A counter is a uint64 and wraps
-- round; an error is its kind.
pub mod Sessions
pub mod Timeline
pub mod Nodes
pub mod Convergence
pub mod Stats
use faultlab.Prelude.{
  ℕ, zero, suc, ◌=ℕ=◌, ◌+◌, ◌-◌, ◌%◌, ◌^◌, ltb, String, Bool, true, false, not, ◌||◌, Option, none,
  some, List, [], ◌∷◌, length, ◌⊎◌, inl, inr, if◌then◌else◌, ℤ, pos, ltb_ℤ, pos_part, GoMap, at,
  insert, delete, ◌==◌, contains, trim_space,
}
use faultlab.Cluster.{Node}
use faultlab.Cluster.Manager.{Manager, get_cluster, get_node, get_nodes}
use faultlab.Metrics.{NodeState, Result, zero_state, state_eq}
use faultlab.Metrics.Sessions.{
  SessionManager, SessionStats, SessionSnapshot, SessionError, new_session_manager, is_active,
  get_session, get_history, track_key, record_snapshot, update_session_stats, compute_all_results,
  compute_results_by_session_id,
}

-- The counters at the start of a session.
pub record Baseline : Type 0 where
  pub rpcs : ℕ
  pub writes : ℕ

-- The listeners of the log are left out. `metrics_loops` has the interval of each sampler.
pub record Service (Float : Type 0) : Type 0 where
  pub cluster : Manager Float
  pub metrics : SessionManager
  pub metrics_loops : GoMap ℕ
  pub total_rpcs : GoMap ℕ
  pub total_writes : GoMap ℕ
  pub recent_keys : GoMap (List String)
  pub session_baselines : GoMap Baseline

pub record KvGetResult : Type 0 where
  pub value : String
  pub version : ℤ
  pub origin : String
  pub has_metadata : Bool

-- The answer to KV_GET: an error, a response without success, or a result.
pub data GetAnswer : Type 0 where
  failed missing : GetAnswer
  found : KvGetResult → GetAnswer

pub data ServiceError : Type 0 where
  cluster_required cluster_missing node_missing call_failed not_found : ServiceError
  session_error : SessionError → ServiceError

abbrev pub uint64_size : ℕ
uint64_size = 2 ^ 64

-- A counter, 0 where the map has none.
unfoldable pub counter : GoMap ℕ → String → ℕ
counter m k = elim (at m k) [ none ↦ 0 | some n ↦ n ]

unfoldable pub recent_of : GoMap (List String) → String → List String
recent_of m k = elim (at m k) [ none ↦ [] | some l ↦ l ]

unfoldable pub baseline_of : GoMap Baseline → String → Baseline
baseline_of m k = elim (at m k) [ none ↦ record { rpcs = 0; writes = 0 } | some b ↦ b ]

-- The state that the samplers and IsClusterConverged see; `none` is an error.
unfoldable pub node_state_of : GetAnswer → Option NodeState
node_state_of failed = none
node_state_of missing = some zero_state
node_state_of (found r) = some (record {
  exists = true;
  value = r.value;
  version = r.version;
  origin = r.origin;
  has_metadata = r.has_metadata;
})

-- What a node adds to the verdict on the nodes after it.
unfoldable pub next_verdict : Option NodeState → Option NodeState → Option Bool → Option Bool
next_verdict first none rest = none
next_verdict none (some state) rest = if not state.exists then some false else rest
next_verdict (some first) (some state) rest =
    if not (state_eq state first) then some false else rest

-- What a key adds to the verdict on the keys after it.
unfoldable pub key_verdict : Option Bool → Option Bool → Option Bool
key_verdict (some true) rest = rest
key_verdict other rest = other

unfoldable pub keep_first : Option NodeState → Option NodeState → Option NodeState
keep_first none state = state
keep_first (some first) state = some first

module _ {Float : Type 0} where
  -- NewClusterService
  unfoldable pub new_cluster_service : Manager Float → Service Float
  new_cluster_service cluster = record {
    cluster = cluster;
    metrics = new_session_manager;
    metrics_loops = [];
    total_rpcs = [];
    total_writes = [];
    recent_keys = [];
    session_baselines = [];
  }

  module _ (ask : String → ℤ → String → String → GetAnswer) where
    -- ExecuteKVGetObserved
    unfoldable pub execute_kv_get_observed : Manager Float → String → String → String → GetAnswer
    execute_kv_get_observed m cluster_id node_id key = elim (get_node m cluster_id node_id) [
      | none ↦ failed
      | some n ↦ ask n.address n.port node_id key
    ]

    -- ExecuteKVGet
    unfoldable pub execute_kv_get :
        Service Float → String → String → String → ServiceError ⊎ KvGetResult
    execute_kv_get s cluster_id node_id key =
        elim (execute_kv_get_observed s.cluster cluster_id node_id key) [
          | failed ↦ inl call_failed
          | missing ↦ inl not_found
          | found r ↦ inr r
        ]

    unfoldable pub observed : Manager Float → String → String → Node Float → Option NodeState
    unfolding execute_kv_get_observed
    observed m cluster_id key n = node_state_of (execute_kv_get_observed m cluster_id n.id key)

    -- The inner loop of sampleAllTrackedKeys; `none` where a node did not answer.
    unfoldable pub sample_nodes :
        Manager Float
        → String
        → String
        → List (Node Float)
        → GoMap NodeState
        → Option (GoMap NodeState)
    unfolding observed
    sample_nodes m cluster_id key [] states = some states
    sample_nodes m cluster_id key (n ∷ nodes) states = elim (observed m cluster_id key n) [
      | none ↦ none
      | some state ↦ sample_nodes m cluster_id key nodes (insert states n.id state)
    ]

    unfoldable pub sample_keys :
        Manager Float
        → String
        → List (Node Float)
        → ℕ
        → List String
        → SessionManager
        → SessionManager
    unfolding sample_nodes
    sample_keys m cluster_id nodes now [] metrics = metrics
    sample_keys m cluster_id nodes now (key ∷ keys) metrics =
        sample_keys m cluster_id nodes now keys (elim (sample_nodes m cluster_id key nodes []) [
          | none ↦ metrics
          | some states ↦ (record_snapshot metrics cluster_id key now states).1
        ])

    unfoldable pub sampled :
        Service Float
        → String
        → ℕ
        → Option SessionSnapshot
        → Option (List (Node Float))
        → SessionManager
    unfolding sample_keys
    sampled s cluster_id now none nodes = s.metrics
    sampled s cluster_id now (some session) none = s.metrics
    sampled s cluster_id now (some session) (some nodes) =
        sample_keys s.cluster cluster_id nodes now
          (if length nodes =ℕ= 0 then [] else session.tracked_keys) s.metrics

    -- sampleAllTrackedKeys, with no other operation between its calls
    unfoldable pub sample_all_tracked_keys : Service Float → String → ℕ → Service Float
    unfolding sampled
    sample_all_tracked_keys s cluster_id now =
        if not (is_active s.metrics cluster_id) then s else record s {
          metrics =
              sampled s cluster_id now (get_session s.metrics cluster_id)
                (get_nodes s.cluster cluster_id);
        }

    -- The nodes' loop of IsClusterConverged; `none` is an error.
    check_nodes :
        Manager Float → String → String → Option NodeState → List (Node Float) → Option Bool
    unfolding observed next_verdict keep_first
    check_nodes m cluster_id key first [] = some true
    check_nodes m cluster_id key first (n ∷ nodes) =
        let state = observed m cluster_id key n in
        next_verdict first state (check_nodes m cluster_id key (keep_first first state) nodes)

    check_keys : Manager Float → String → List (Node Float) → List String → Option Bool
    unfolding check_nodes key_verdict
    check_keys m cluster_id nodes [] = some true
    check_keys m cluster_id nodes (key ∷ keys) =
        key_verdict (check_nodes m cluster_id key none nodes) (check_keys m cluster_id nodes keys)

    check_session :
        Manager Float → String → Option SessionSnapshot → Option (List (Node Float)) → Option Bool
    unfolding check_keys
    check_session m cluster_id none nodes = none
    check_session m cluster_id (some session) nodes =
        if length session.tracked_keys =ℕ= 0 then some true else elim nodes [
          | none ↦ none
          | some l ↦
              if length l =ℕ= 0 then some false else check_keys m cluster_id l session.tracked_keys
        ]

    -- IsClusterConverged; `none` is an error
    unfoldable pub is_cluster_converged : Service Float → String → Option Bool
    unfolding check_session
    is_cluster_converged s cluster_id =
        check_session s.cluster cluster_id (get_session s.metrics cluster_id)
          (get_nodes s.cluster cluster_id)
