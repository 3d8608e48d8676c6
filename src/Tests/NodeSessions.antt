-- ===== src/Tests/NodeSessions.antt =====
-- A node's session at concrete inputs.
use faultlab.Prelude.{
  inc64, arith, some, ◌≡◌, refl, ℕ, String, true, false, List, [], ◌∷◌, pos, at, insert, str_ltb,
}
use faultlab.Protocol.{Envelope, protocol_kind}
use faultlab.Fault.{
  Engine, partition, is_partitioned, Decision, before_send, before_probe, before_tick,
}
use faultlab.NodeSession.CutOff.{error_of, cut_off_unchanged}
use faultlab.Tests.Faults.{percent, lossy}
use faultlab.NodeSession.{
  PeerState, NodeSession, PeerInfo, Network, new_node_session, on_peers_updated, send, probe_tick,
  get_transport_health, peer_dead, peer_suspect, peer_set, should_dial, update_failure,
  keep_present, add_new, update_endpoints,
}
use faultlab.NodeSession.Topology.{entry_of, peer_after, at-on_peers_updated}
use faultlab.NodeSession.Reach.{
  Reachable, created, later, updating, probing, sending, IsSession, Reachable-IsSession,
}

abbrev info : String → String → PeerInfo
info id host = record { id = id; host = host; port = pos 7002 }

abbrev start : NodeSession
start = new_node_session "localhost" "n1" (pos 7001)

abbrev first : List PeerInfo
first = info "n2" "hostA" ∷ info "n3" "hostA" ∷ []

abbrev known : NodeSession
known = on_peers_updated start first

abbrev moved : List PeerInfo
moved = (info "n2" "hostA" ∷ info "n4" "hostA" ∷ info "n2" "hostB" ∷ [])

abbrev allowed : String → Decision
allowed id = record { allow = true; delay = pos 0; reason = "" }

abbrev dead_network : Network
dead_network = record { dials = false; shakes = false; answers = false }

abbrev working : Network
working = record { dials = true; shakes = true; answers = true }

abbrev after_probe : NodeSession
after_probe = probe_tick (allowed "") allowed (λ id. dead_network) 5 known

abbrev probed_twice : NodeSession
probed_twice = probe_tick (allowed "") allowed (λ id. dead_network) 9 after_probe

health_after_one : get_transport_health after_probe "n2" ≡ peer_suspect
unfolding get_transport_health probe_tick on_peers_updated new_node_session at peer_set keep_present
    add_new update_endpoints insert should_dial str_ltb update_failure inc64
health_after_one = refl

health_after_two : get_transport_health probed_twice "n2" ≡ peer_dead
unfolding get_transport_health probe_tick on_peers_updated new_node_session at peer_set keep_present
    add_new update_endpoints insert should_dial str_ltb update_failure inc64
health_after_two = refl

abbrev cut : Engine ℕ
cut = partition lossy "n2"

abbrev envelope : Envelope (List ℕ)
envelope = record {
  from = "n1";
  to = "n2";
  protocol = "gossip";
  payload = [];
  kind = protocol_kind;
  trace_metadata = "";
  version = 1;
  logical_tick = 0;
}

at-on_peers_updated_example :
    at (on_peers_updated known moved).peers "n2"
    ≡ peer_after (entry_of moved "n2") (at known.peers "n2")
unfolding on_peers_updated new_node_session at peer_set keep_present add_new update_endpoints insert
at-on_peers_updated_example = at-on_peers_updated known moved "n2" (refl, (refl, tt))

reached : Reachable (List ℕ) 3 (send after_probe envelope allowed false working 7).1
reached =
    later
      (later (later (created "localhost" "n1" (pos 7001)) (updating first))
        (probing (allowed "") allowed (λ id. dead_network) 5))
      (sending envelope allowed false working 7)

Reachable-IsSession_example : IsSession 3 (send after_probe envelope allowed false working 7).1
Reachable-IsSession_example = Reachable-IsSession reached (omega arith)

known_reached : Reachable (List ℕ) 1 known
known_reached = later (created "localhost" "n1" (pos 7001)) (updating first)

known_ids : (ps : PeerState) → at known.peers "n2" ≡ some ps → ps.id ≡ "n2"
known_ids ps found = ((Reachable-IsSession known_reached (omega arith)).sound "n2" ps found).own_id

cut_off_unchanged_example :
    let sent =
      send known envelope (λ peer. before_send percent (some cut) peer 50) false working 7 in
    let ticked =
      probe_tick (before_tick (some cut)) (before_probe (some cut)) (λ id. working) 7 known in
    (sent.0.error ≡ error_of (at known.peers "n2"))
    × (sent.0.calls ≡ [])
    × ((id : String) → at sent.1.peers id ≡ at known.peers id)
    × (at ticked.peers "n2" ≡ at known.peers "n2")
unfolding is_partitioned partition at insert
cut_off_unchanged_example =
    cut_off_unchanged percent cut 50 known envelope false working (λ id. working) 7 known_ids refl
