-- ===== src/Gossip/Peers.antt =====
-- Peers of a gossip node: SetPeers of gossip.go, and pickRandomPeer, hasPeer and parseSenderAddress
-- of propagation.go.
pub mod Laws
use faultlab.Prelude.{
  ℕ, String, Bool, true, false, not, ◌&&◌, Option, none, some, List, [], ◌∷◌, if◌then◌else◌, ℤ, pos,
  GoMap, at, insert, ◌==◌, length, get_elem?, cut_first, cut_last, atoi,
}
use faultlab.Gossip.State.{GossipProtocol}

-- hasPeer
unfoldable pub has_peer : List String → String → Bool
has_peer [] peer_id = false
has_peer (p ∷ ps) peer_id = let rest = has_peer ps peer_id in if p == peer_id then true else rest

-- Neither empty nor the node itself.
is_other : String → String → Bool
is_other node_id p = not (p == "") && not (p == node_id)

filtered_peers : String → List String → List String
unfolding is_other
filtered_peers node_id [] = []
filtered_peers node_id (p ∷ ps) =
    let rest = filtered_peers node_id ps in if is_other node_id p then p ∷ rest else rest

-- newPeers[p] = true and oldPeersMap[p] = true, for each p of a list
peer_set : GoMap Bool → List String → GoMap Bool
peer_set set [] = set
peer_set set (p ∷ ps) = peer_set (insert set p true) ps

mark_peer : GoMap Bool → GoMap Bool → String → GoMap Bool
mark_peer old force peer = elim (at old peer) [ none ↦ insert force peer true | some _ ↦ force ]

-- The loop over newPeers that marks what oldPeersMap lacks.
mark_new : GoMap Bool → GoMap Bool → GoMap Bool → GoMap Bool
unfolding mark_peer
mark_new old force [] = force
mark_new old force ((peer, _) ∷ rest) = mark_new old (mark_peer old force peer) rest

-- SetPeers
unfoldable pub set_peers : GossipProtocol → List String → GossipProtocol
unfolding filtered_peers peer_set mark_new
set_peers g peers =
    let filtered = filtered_peers g.node_id peers in
    record g {
      peers = filtered;
      force_sync_peers = mark_new (peer_set [] g.peers) g.force_sync_peers (peer_set [] filtered);
    }

-- pickRandomPeer; `intn` is rand.Intn, a number below its argument
unfoldable pub pick_random_peer : (ℕ → ℕ) → List String → Option String
pick_random_peer intn [] = none
pick_random_peer intn (p ∷ ps) = get_elem? (p ∷ ps) (intn (length (p ∷ ps)))

port_or_zero : Option ℤ → ℤ
port_or_zero none = pos 0
port_or_zero (some p) = p

-- The two splits of an address; a text after @ with no colon is the host.
sender_of : String → Option (String × String) → String × String × ℤ
sender_of from none = (from, "", pos 0)
sender_of from (some (peer_id, address)) = elim (cut_last b':' address) [
  | none ↦ (peer_id, address, pos 0)
  | some (host, port) ↦ (peer_id, host, port_or_zero (atoi port))
]

-- parseSenderAddress: the sender's id, host and port
unfoldable pub parse_sender_address : String → String × String × ℤ
unfolding sender_of port_or_zero
parse_sender_address from = sender_of from (cut_first b'@' from)
