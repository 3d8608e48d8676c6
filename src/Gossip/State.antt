-- ===== src/Gossip/State.antt =====
-- GossipProtocol of gossip.go with its constructor, Start and Stop, and the messages of types.go.
use faultlab.Prelude.{ℕ, String, Bool, List, [], ℤ, GoMap}
use faultlab.Gossip.Value.{Value, DigestEntry}

pub record GossipProtocol : Type 0 where
  pub node_id : String
  pub tick : ℕ
  pub peers : List String
  pub store : GoMap Value
  pub gossip_interval : ℕ
  pub has_discovery_callback : Bool
  pub force_sync_peers : GoMap Bool

-- NewGossipProtocol
unfoldable pub new_gossip_protocol : GossipProtocol
new_gossip_protocol = record {
  node_id = "";
  tick = 0;
  peers = [];
  store = [];
  gossip_interval = 3;
  has_discovery_callback = Bool.false;
  force_sync_peers = [];
}

unfoldable pub start : GossipProtocol → String → GossipProtocol
start g node_id = record g { node_id = node_id; tick = 0 }

-- SetPeerDiscoveryCallback; the callback itself belongs to the runtime
unfoldable pub set_peer_discovery_callback : GossipProtocol → Bool → GossipProtocol
set_peer_discovery_callback g cb = record g { has_discovery_callback = cb }

-- `type` is the field Type: a text, since what arrives may name no known type.
pub record GossipMessage : Type 0 where
  pub message_type : String
  pub digest : GoMap DigestEntry
  pub state : GoMap Value

abbrev pub msg_digest : String
msg_digest = "DIGEST"

abbrev pub msg_state : String
msg_state = "STATE"

pub data TimelineEventType : Type 0 where
  write gossip_receive resolve : TimelineEventType

-- The arguments of emitTimelineEvent.
pub record TimelineEvent : Type 0 where
  pub event_type : TimelineEventType
  pub key : String
  pub value : String
  pub version : ℤ
  pub origin : String
  pub source : String
  pub timestamp : ℤ
