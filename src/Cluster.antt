-- ===== src/Cluster.antt =====
-- The control plane's registry of clusters and nodes: internal/cluster/config.go and the package
-- internal/cluster/manager.
pub mod Manager
use faultlab.Prelude.{ℕ, String, Bool, false, List, [], ℤ, pos, GoMap}

-- `delay_ms` is an int; the drop rate is a float64.
pub record FaultState (Float : Type 0) : Type 0 where
  pub crashed : Bool
  pub drop_rate : Float
  pub delay_ms : ℤ
  pub partition : List String

pub record NodeActionCapabilities : Type 0 where
  pub kv_put : Bool
  pub kv_get : Bool
  pub kv_delete : Bool

-- `last_seen` is a reading of the monotonic clock in nanoseconds.
pub record Node (Float : Type 0) : Type 0 where
  pub id : String
  pub address : String
  pub port : ℤ
  pub last_seen : ℕ
  pub status : String
  pub fault : FaultState Float
  pub active_protocol_key : String
  pub active_protocol_epoch : ℕ
  pub capabilities : NodeActionCapabilities
  pub capabilities_at : ℤ

-- `protocol` and `nodes` are the fields Protocol and Nodes.
pub record Cluster (Float : Type 0) : Type 0 where
  pub id : String
  pub protocol : String
  pub nodes : GoMap (Node Float)

-- DefaultFaultState, given the float64 zero
unfoldable pub default_fault_state : {Float : Type 0} → Float → FaultState Float
default_fault_state zero_rate = record {
  crashed = false;
  drop_rate = zero_rate;
  delay_ms = pos 0;
  partition = [];
}

-- The zero value of NodeActionCapabilities.
abbrev pub no_capabilities : NodeActionCapabilities
no_capabilities = record { kv_put = false; kv_get = false; kv_delete = false }
