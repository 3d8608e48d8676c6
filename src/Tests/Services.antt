-- ===== src/Tests/Services.antt =====
-- The control plane's service at concrete inputs; a drop rate is a number of per cent.
use faultlab.Prelude.{
  if◌then◌else◌, ◌≡◌, ◌↔◌, inr, refl, ℕ, ℤ, String, true, false, some, none, [], ◌∷◌, pos, All,
  arith, trim_space, split_on, sort_stable, at, eq_iff,
}
use faultlab.Cluster.{Node, FaultState}
use faultlab.Cluster.Manager.{Manager, fresh_node, get_nodes, set_fault_params}
use faultlab.Metrics.{last?}
use faultlab.Metrics.Sessions.{
  Session, SessionSnapshot, zero_stats, get_session, history_of, last_running, is_running,
  session_snapshot,
}
use faultlab.ControlPlane.Service.{
  Service, GetAnswer, found, counter, baseline_of, is_cluster_converged,
}
use faultlab.ControlPlane.Service.Sessions.{
  MetricsSnapshot, since_baseline, stats_now, stop_metrics_session,
}
use faultlab.ControlPlane.Service.Convergence.{AgreeOn, is_cluster_converged_iff}
use faultlab.ControlPlane.Service.Stats.{stop_metrics_session-stats}
use faultlab.ControlPlane.Service.Nodes.{service_set_fault_params}
use faultlab.ControlPlane.Service.Nodes.Silent.{service_set_fault_params-silent}
use faultlab.Prelude.GoStrings.Decimal.{lacks}
use faultlab.Runtime.Logger.{Logger}
use faultlab.ControlPlane.Service.Timeline.{event_of, text_of, emit_timeline_event}
use faultlab.ControlPlane.Service.Timeline.RoundTrip.{event_of-emit_timeline_event}

abbrev node_one : Node ℕ
node_one = fresh_node 0 "n1" "localhost" (pos 7001) 100

abbrev node_two : Node ℕ
node_two = fresh_node 0 "n2" "localhost" (pos 7002) 100

abbrev lab_manager : Manager ℕ
lab_manager = record {
  clusters =
      (
        "lab",
        record {
          id = "lab";
          protocol = "gossip";
          nodes = ("n1", node_one) ∷ ("n2", node_two) ∷ [];
        },
      )
      ∷ [];
  has_session = false;
}

abbrev running : Session
running = record {
  cluster_id = "lab";
  started_at = 10;
  stopped_at = none;
  tracked_keys = "k" ∷ [];
  snapshots = [];
  timeline = [];
  stats = zero_stats;
}

-- A running session that began after three writes, and two writes since.
abbrev lab_service : Service ℕ
lab_service = record {
  cluster = lab_manager;
  metrics = ("lab", running ∷ []) ∷ [];
  metrics_loops = [];
  total_rpcs = ("lab", 40) ∷ [];
  total_writes = ("lab", 5) ∷ [];
  recent_keys = [];
  session_baselines = ("lab", record { rpcs = 30; writes = 3 }) ∷ [];
}

abbrev same_answer : String → ℤ → String → String → GetAnswer
same_answer address port node_id key =
    found (record { value = "v"; version = pos 1; origin = "n1"; has_metadata = true })

abbrev lab_session : SessionSnapshot
lab_session = record {
  cluster_id = "lab";
  started_at = 10;
  stopped_at = none;
  tracked_keys = "k" ∷ [];
  stats = zero_stats;
}

is_cluster_converged_iff_example :
    (is_cluster_converged same_answer lab_service "lab" ≡ some true)
    ↔ All
        (AgreeOn same_answer lab_manager "lab" (node_one ∷ node_two ∷ []))
        lab_session.tracked_keys
is_cluster_converged_iff_example =
    is_cluster_converged_iff same_answer lab_service "lab" lab_session node_one (node_two ∷ [])
      (unfold get_session history_of last? session_snapshot sort_stable trim_space at in refl)
      (unfold get_nodes at in refl)

stop_metrics_session-stats_example :
    let (result, s') = stop_metrics_session same_answer lab_service "lab" 50 51 in
    (snap : SessionSnapshot) × (get_session s'.metrics "lab" ≡ some snap)
    × (snap.stats ≡ stats_now lab_service "lab")
    × (snap.stopped_at ≡ some 51)
    × (returned : MetricsSnapshot) × (result ≡ inr (some returned))
    × (returned.cluster_stats.total_rpcs ≡ counter lab_service.total_rpcs "lab")
    × (returned.cluster_stats.total_writes ≡ counter lab_service.total_writes "lab")
stop_metrics_session-stats_example =
    stop_metrics_session-stats same_answer lab_service "lab" 50 51 (unfold trim_space in refl)
      (λ e. absurd (ground (arith, eq_iff "lab" "")))
      (unfold last_running history_of last? is_running at in refl)
      (unfold counter at in omega arith) (unfold counter at in omega arith)

-- The sealed statistics are those of the session; the service's counters are larger.
sealed_two :
    ((stats_now lab_service "lab").total_writes ≡ 2) × (counter lab_service.total_writes "lab" ≡ 5)
unfolding stats_now counter at since_baseline baseline_of
sealed_two = (refl, refl)

abbrev crash_request : FaultState ℕ
crash_request = record { crashed = true; drop_rate = 0; delay_ms = pos 0; partition = "n2" ∷ [] }

service_set_fault_params-silent_example :
    (service_set_fault_params lab_service "lab" "n1" crash_request 60 (λ h p. true)).1
    ≡ record lab_service { cluster = (set_fault_params lab_manager "lab" "n1" crash_request).1 }
service_set_fault_params-silent_example =
    service_set_fault_params-silent lab_service "lab" "n1" crash_request 60 (λ h p. true)

-- A text without a verb as it is, any other as an error text.
abbrev format_plain : String → String
format_plain s = if lacks b'%' s then s else "%!(NOVERB)"

format_plain-lacks : (s : String) → lacks b'%' s ≡ true → format_plain s ≡ s
format_plain-lacks s h = rw h refl

abbrev logger : Logger
logger = record { node_id = "n1"; connected = true; prefix = "" }

event_of-emit_timeline_event_example :
    (message : String) × (emit_timeline_event format_plain
        (some logger)
        "WRITE"
        "k"
        "v"
        (pos 3)
        "n1"
        "n2"
        1700
        (pos 1699)
      ≡ some message)
    × (event_of "n1" (split_on b'|' (text_of message))
        ≡ some (record {
          time = 0;
          node_id = "n1";
          key = "k";
          value = "v";
          version = pos 3;
          origin = "n1";
          source = "n2";
          event_type = "WRITE";
          round = 1700;
          lww_timestamp = pos 1699;
        }))
event_of-emit_timeline_event_example =
    event_of-emit_timeline_event format_plain logger "n1" "WRITE" "k" "v" "n1" "n2" (pos 3)
      (pos 1699) 1700 format_plain-lacks refl (refl, refl) (refl, refl) (refl, refl) (refl, refl)
      (refl, refl) (omega arith) (omega arith) (omega arith)
