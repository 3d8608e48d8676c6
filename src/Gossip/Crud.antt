-- ===== src/Gossip/Crud.antt =====
-- crud.go: Put, Get, GetWithMetadata and Delete. The wall clock's reading is an argument.
pub mod Laws
pub mod Deleted
use faultlab.Prelude.{
  String, Bool, true, false, Option, none, some, List, [], ◌∷◌, if◌then◌else◌, ℤ, pos, inc64, GoMap,
  at, insert, delete as delete_key, insert_all,
}
use faultlab.Gossip.Clock.{Clock, clock_at}
use faultlab.Gossip.Value.{Value}
use faultlab.Gossip.State.{GossipProtocol, TimelineEvent, TimelineEventType, write}

-- A copy of the clock of the current value, if there is one.
copied_clock : Option Value → Clock
copied_clock none = []
copied_clock (some current) = insert_all [] current.vector_clock

next_version : Option Value → ℤ
next_version none = pos 1
next_version (some current) = inc64 current.version

-- The value that Put stores, given `current, ok := g.store[key]`.
pub written : GossipProtocol → Option Value → String → ℤ → Value
unfolding copied_clock next_version
written g current content now =
    let vc = copied_clock current in
    record {
      datum = content;
      version = next_version current;
      origin = g.node_id;
      timestamp = now;
      vector_clock = insert vc g.node_id (inc64 (clock_at vc g.node_id));
    }

write_event : String → String → Value → TimelineEvent
write_event node_id key v = record {
  event_type = write;
  key = key;
  value = v.datum;
  version = v.version;
  origin = v.origin;
  source = node_id;
  timestamp = v.timestamp;
}

-- Put
unfoldable pub put : GossipProtocol → String → String → ℤ → GossipProtocol × TimelineEvent
unfolding written write_event
put g key content now =
    let v = written g (at g.store key) content now in
    (record g { store = insert g.store key v }, write_event g.node_id key v)

datum_of : Option Value → String × Bool
datum_of none = ("", false)
datum_of (some v) = (v.datum, true)

-- Get
unfoldable pub get : GossipProtocol → String → String × Bool
unfolding datum_of
get g key = datum_of (at g.store key)

metadata_of : Option Value → String × ℤ × String × Bool
metadata_of none = ("", pos 0, "", false)
metadata_of (some v) = (v.datum, v.version, v.origin, true)

-- GetWithMetadata
unfoldable pub get_with_metadata : GossipProtocol → String → String × ℤ × String × Bool
unfolding metadata_of
get_with_metadata g key = metadata_of (at g.store key)

delete_found : Option Value → GossipProtocol → String → GossipProtocol
delete_found none g key = g
delete_found (some _) g key = record g { store = delete_key g.store key }

-- Delete
unfoldable pub delete : GossipProtocol → String → GossipProtocol
unfolding delete_found
delete g key = delete_found (at g.store key) g key
