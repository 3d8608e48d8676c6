-- ===== src/ControlPlane.antt =====
-- The commands of the control plane: internal/controlplane/command.go and parser.go.
pub mod Parser
pub mod Service
use faultlab.Prelude.{String, Bool, false, List, [], ℤ, pos}

-- The constants Cmd...
pub data CommandType : Type 0 where
  cmd_create_cluster cmd_start_node_process cmd_stop_node_process cmd_list_node_processes
        cmd_add_node cmd_remove_node cmd_list_nodes cmd_list_clusters cmd_set_fault_params
        cmd_crash_node cmd_recover_node cmd_set_drop_rate cmd_set_delay cmd_set_partition cmd_kv_put
        cmd_kv_get cmd_set_cluster_protocol cmd_run_hypothesis cmd_kill_cluster cmd_metrics_start
        cmd_metrics_stop cmd_metrics_watch_key cmd_metrics_show cmd_metrics_history
        cmd_log_lifecycle_event cmd_help :
      CommandType

-- The reply channel is left out: it carries no part of the command.
pub record Command (Float : Type 0) : Type 0 where
  pub command_type : CommandType
  pub cluster_id : String
  pub protocol : String
  pub node_id : String
  pub key : String
  pub value : String
  pub host : String
  pub port : ℤ
  pub crashed : Bool
  pub drop_rate : Float
  pub delay_ms : ℤ
  pub partition : List String
  pub peer_id : String
  pub peers_csv : String
  pub enabled : Bool
  pub file_path : String
  pub project_root : String
  pub cp_host : String
  pub cp_port : ℤ
  pub interval_ms : ℤ
  pub event_type : String

-- NewCommand, given the float64 zero
unfoldable pub new_command : {Float : Type 0} → Float → CommandType → Command Float
new_command zero t = record {
  command_type = t;
  cluster_id = "";
  protocol = "";
  node_id = "";
  key = "";
  value = "";
  host = "";
  port = pos 0;
  crashed = false;
  drop_rate = zero;
  delay_ms = pos 0;
  partition = [];
  peer_id = "";
  peers_csv = "";
  enabled = false;
  file_path = "";
  project_root = "";
  cp_host = "";
  cp_port = pos 0;
  interval_ms = pos 0;
  event_type = "";
}
