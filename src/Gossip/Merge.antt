-- ===== src/Gossip/Merge.antt =====
-- handleState of conflict_resolution.go.
pub mod Laws
pub mod Settled
use faultlab.Prelude.{
  String, Bool, true, false, not, ◌||◌, Option, none, some, List, [], ◌∷◌, ◌++◌, if◌then◌else◌, ℤ,
  pos, GoMap, at, insert,
}
use faultlab.Gossip.Clock.{merge_clock}
use faultlab.Gossip.Value.{Value, is_incoming_newer}
use faultlab.Gossip.State.{
  GossipProtocol, GossipMessage, TimelineEvent, TimelineEventType, gossip_receive, resolve,
}

-- What `localVal, exists := g.store[k]` gives for a missing key.
abbrev zero_value : Value
zero_value = record {
  datum = "";
  version = pos 0;
  origin = "";
  timestamp = pos 0;
  vector_clock = [];
}

value_of : Option Value → Value
value_of none = zero_value
value_of (some v) = v

exists_in : Option Value → Bool
exists_in none = false
exists_in (some _) = true

receive_event : Bool → String → Value → TimelineEvent
receive_event exists k v = record {
  event_type = if exists then resolve else gossip_receive;
  key = k;
  value = v.datum;
  version = v.version;
  origin = v.origin;
  source = v.origin;
  timestamp = v.timestamp;
}

-- One round of the loop, given `localVal, exists := g.store[k]`.
receive_with : Option Value → GoMap Value → String → Value → GoMap Value × List TimelineEvent
unfolding value_of exists_in receive_event
receive_with found store k v =
    let local = value_of found in
    if not (exists_in found) || is_incoming_newer local v
    then (
      insert store k (record v { vector_clock = merge_clock local.vector_clock v.vector_clock }),
      receive_event (exists_in found) k v ∷ [],
    )
    else (store, [])

receive : GoMap Value → String → Value → GoMap Value × List TimelineEvent
unfolding receive_with
receive store k v = receive_with (at store k) store k v

receive_all : GoMap Value → GoMap Value → GoMap Value × List TimelineEvent
receive_all store [] = (store, [])
receive_all store ((k, v) ∷ rest) =
    let (store', events) = receive store k v in
    let (store'', more) = receive_all store' rest in (store'', events ++ more)

-- The new protocol state and the timeline events in the order of emission; nothing is sent.
unfoldable pub handle_state : GossipProtocol → GossipMessage → GossipProtocol × List TimelineEvent
unfolding receive receive_all
handle_state g msg =
    let (store, events) = receive_all g.store msg.state in (record g { store = store }, events)
