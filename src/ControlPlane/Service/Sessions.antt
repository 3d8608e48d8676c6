-- ===== src/ControlPlane/Service/Sessions.antt =====
-- internal/controlplane/service/service.go: the metrics sessions with their baselines, the counters, and KV_PUT.
use faultlab.Prelude.{
  ℕ, zero, suc, ◌+◌, ◌-◌, ◌%◌, ltb, String, Bool, true, false, Option, none, some, List, [], ◌∷◌,
  length, ◌⊎◌, inl, inr, if◌then◌else◌, ℤ, pos, ltb_ℤ, pos_part, GoMap, insert, delete, ◌==◌,
  contains, trim_space,
}
use faultlab.Cluster.Manager.{get_cluster, get_node}
use faultlab.Metrics.{Result}
use faultlab.Metrics.Sessions as Sessions
use faultlab.Metrics.Sessions.{
  SessionManager, SessionStats, SessionSnapshot, SessionError, is_active, get_session, get_history,
  track_key, update_session_stats, compute_all_results, compute_results_by_session_id,
}
use faultlab.ControlPlane.Service.{
  Service, GetAnswer, ServiceError, cluster_required, cluster_missing, node_missing, call_failed,
  session_error, uint64_size, counter, recent_of, baseline_of, sample_all_tracked_keys,
}

-- The answer to KV_PUT: an error, a response without success, or one with.
pub data PutAnswer : Type 0 where
  put_failed put_refused put_done : PutAnswer

pub record MetricsSnapshot : Type 0 where
  pub active : Bool
  pub cluster_id : String
  pub started_at : ℕ
  pub stopped_at : Option ℕ
  pub tracked_keys : List String
  pub results : GoMap Result
  pub cluster_stats : SessionStats

-- a - b on uint64
unfoldable pub since_baseline : ℕ → ℕ → ℕ
since_baseline a b = (a + uint64_size - b) % uint64_size

unfoldable pub first_ten : ℕ → List String → List String
first_ten zero keys = []
first_ten (suc n) [] = []
first_ten (suc n) (k ∷ keys) = k ∷ first_ten n keys

unfoldable pub with_recent : List String → String → List String
with_recent keys key =
    if contains keys key
    then keys
    else if ltb 10 (length (key ∷ keys))
    then first_ten 10 (key ∷ keys)
    else key ∷ keys

-- The sampler's interval: a second where none is given.
unfoldable pub sampling_interval : ℤ → ℕ
sampling_interval interval = if ltb_ℤ (pos 0) interval then pos_part interval else 1_000_000_000

history_entry : SessionSnapshot → GoMap Result → MetricsSnapshot
history_entry snap results = record {
  active = elim snap.stopped_at [ none ↦ true | some _ ↦ false ];
  cluster_id = snap.cluster_id;
  started_at = snap.started_at;
  stopped_at = snap.stopped_at;
  tracked_keys = snap.tracked_keys;
  results = results;
  cluster_stats = snap.stats;
}

history_from : SessionManager → String → ℕ → List SessionSnapshot → List MetricsSnapshot
unfolding history_entry
history_from metrics cluster_id i [] = []
history_from metrics cluster_id i (snap ∷ snaps) =
    let rest = history_from metrics cluster_id (suc i) snaps in
    elim (compute_results_by_session_id metrics cluster_id (pos i)) [
      | none ↦ rest
      | some results ↦ history_entry snap results ∷ rest
    ]

module _ {Float : Type 0} where
  counted : Service Float → String → String → Service Float
  counted s cluster_id key = record s {
    total_writes =
        insert s.total_writes cluster_id ((counter s.total_writes cluster_id + 1) % uint64_size);
    recent_keys =
        insert s.recent_keys cluster_id (with_recent (recent_of s.recent_keys cluster_id) key);
  }

  after_put : Service Float → String → String → PutAnswer → Option ServiceError × Service Float
  unfolding counted
  after_put s cluster_id key put_failed = (some call_failed, s)
  after_put s cluster_id key put_refused = (none, s)
  after_put s cluster_id key put_done = (none, counted s cluster_id key)

  -- ExecuteKVPut, with the node's answer as an argument. No error is given where the node answers
  -- without success.
  unfoldable pub execute_kv_put :
      Service Float
      → (String → ℤ → PutAnswer)
      → String
      → String
      → String
      → Option ServiceError × Service Float
  unfolding after_put
  execute_kv_put s answer cluster_id node_id key = elim (get_node s.cluster cluster_id node_id) [
    | none ↦ (some node_missing, s)
    | some n ↦ after_put s cluster_id key (answer n.address n.port)
  ]

  -- What the statistics of the cluster are, since the baseline.
  unfoldable pub stats_now : Service Float → String → SessionStats
  stats_now s cluster_id =
      let baseline = baseline_of s.session_baselines cluster_id in
      record {
        total_rpcs = since_baseline (counter s.total_rpcs cluster_id) baseline.rpcs;
        total_writes = since_baseline (counter s.total_writes cluster_id) baseline.writes;
        recent_keys = recent_of s.recent_keys cluster_id;
      }

  -- A session that Start has put in, with its baseline and its sampler.
  started : Service Float → String → ℕ → SessionManager → Service Float
  started s cluster_id interval metrics = record s {
    metrics = metrics;
    session_baselines = insert s.session_baselines cluster_id (record {
      rpcs = counter s.total_rpcs cluster_id;
      writes = counter s.total_writes cluster_id;
    });
    metrics_loops = insert s.metrics_loops cluster_id interval;
  }

  start_with :
      Service Float
      → String
      → ℕ
      → Option SessionError × SessionManager
      → Option ServiceError × Service Float
  unfolding started
  start_with s cluster_id interval (some e, metrics) = (some (session_error e), s)
  start_with s cluster_id interval (none, metrics) = (none, started s cluster_id interval metrics)

  -- StartMetricsSession. The sampler that it starts is sample_all_tracked_keys, in its own thread.
  unfoldable pub start_metrics_session :
      Service Float → String → ℤ → ℕ → Option ServiceError × Service Float
  unfolding start_with
  start_metrics_session s cluster interval now =
      let cluster_id = trim_space cluster in
      if cluster_id == ""
      then (some cluster_required, s)
      else elim (get_cluster s.cluster cluster_id) [
        | none ↦ (some cluster_missing, s)
        | some _ ↦
            start_with s cluster_id (sampling_interval interval)
              (Sessions.start s.metrics cluster_id now)
      ]

  -- StartMetricsSessionIfInactive: whether it started one, the error, and the state
  unfoldable pub start_metrics_session_if_inactive :
      Service Float → String → ℤ → ℕ → Bool × Option ServiceError × Service Float
  start_metrics_session_if_inactive s cluster interval now =
      if is_active s.metrics cluster
      then (false, none, s)
      else let (e, s') = start_metrics_session s cluster interval now in
        (elim e [ none ↦ true | some _ ↦ false ], e, s')

  -- GetMetricsSnapshot; `none` is its error
  unfoldable pub get_metrics_snapshot : Service Float → String → Option MetricsSnapshot
  get_metrics_snapshot s cluster =
      let cluster_id = trim_space cluster in
      elim (get_session s.metrics cluster_id) [
        | none ↦ none
        | some snap ↦ elim (compute_all_results s.metrics cluster_id) [
          | none ↦ none
          | some results ↦ some (record {
            active = is_active s.metrics cluster_id;
            cluster_id = cluster_id;
            started_at = snap.started_at;
            stopped_at = snap.stopped_at;
            tracked_keys = snap.tracked_keys;
            results = results;
            cluster_stats = stats_now s cluster_id;
          })
        ]
      ]

  -- GetMetricsHistory
  unfoldable pub get_metrics_history : Service Float → String → List MetricsSnapshot
  unfolding history_from
  get_metrics_history s cluster =
      history_from s.metrics (trim_space cluster) 0 (get_history s.metrics (trim_space cluster))

  -- StopMetricsSession up to the call of Stop: the last sample, the end of the sampler, the sealed
  -- statistics.
  unfoldable pub sealed :
      (String → ℤ → String → String → GetAnswer) → Service Float → String → ℕ → Service Float
  sealed ask s cluster_id now =
      let s' = sample_all_tracked_keys ask s cluster_id now in
      record s' {
        metrics_loops = delete s'.metrics_loops cluster_id;
        session_baselines = delete s'.session_baselines cluster_id;
        metrics = update_session_stats s'.metrics cluster_id (stats_now s' cluster_id);
      }

  unfoldable pub stop_with :
      Service Float
      → String
      → Option SessionError × SessionManager
      → (ServiceError ⊎ Option MetricsSnapshot) × Service Float
  stop_with s cluster_id (some e, metrics) = (inl (session_error e), s)
  stop_with s cluster_id (none, metrics) =
      let s' = record s { metrics = metrics } in (inr (get_metrics_snapshot s' cluster_id), s')

  -- StopMetricsSession
  unfoldable pub stop_metrics_session :
      (String → ℤ → String → String → GetAnswer)
      → Service Float
      → String
      → ℕ
      → ℕ
      → (ServiceError ⊎ Option MetricsSnapshot) × Service Float
  unfolding stop_with
  stop_metrics_session ask s cluster sampled_at now =
      let cluster_id = trim_space cluster in
      let s' = sealed ask s cluster_id sampled_at in
      stop_with s' cluster_id (Sessions.stop s'.metrics cluster_id now)

  -- StopMetricsSessionIfActive
  unfoldable pub stop_metrics_session_if_active :
      (String → ℤ → String → String → GetAnswer) → Service Float → String → ℕ → ℕ → Service Float
  stop_metrics_session_if_active ask s cluster sampled_at now =
      if is_active s.metrics cluster
      then (stop_metrics_session ask s cluster sampled_at now).1
      else s

  -- AddMetricsWatchKey
  unfoldable pub add_metrics_watch_key :
      Service Float → String → String → Option SessionError × Service Float
  add_metrics_watch_key s cluster key =
      let (e, metrics) = track_key s.metrics cluster key in (e, record s { metrics = metrics })

  -- RecordWriteKeyForMetrics
  unfoldable pub record_write_key_for_metrics : Service Float → String → String → Service Float
  record_write_key_for_metrics s cluster key =
      if is_active s.metrics cluster
      then record s { metrics = (track_key s.metrics cluster key).1 }
      else s
