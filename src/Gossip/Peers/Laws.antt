-- ===== src/Gossip/Peers/Laws.antt =====
-- SetPeers keeps the other nodes only and marks exactly the new ones; a sender's address reads back.
use faultlab.Prelude.{
  ◌≡◌, refl, String, Bool, true, false, not, ◌&&◌, ◌||◌, Option, none, some, List, [], ◌∷◌, arith,
  if◌then◌else◌, GoMap, at, insert, at-insert, ◌==◌, eq_iff,
}
use faultlab.Gossip.State.{GossipProtocol}
use faultlab.Gossip.Peers.{
  has_peer, is_other, filtered_peers, peer_set, mark_peer, mark_new, set_peers,
}

-- Whether a map has a key with the value true, the only one that the sets hold.
abbrev pub is_marked : Option Bool → Bool
is_marked none = false
is_marked (some b) = b

has_peer-filtered_peers :
    (node_id : String) (peers : List String) (p : String)
    → has_peer (filtered_peers node_id peers) p ≡ (is_other node_id p && has_peer peers p)
unfolding has_peer filtered_peers
has_peer-filtered_peers node_id [] p = ground arith
has_peer-filtered_peers node_id (q ∷ peers) p =
    ground (arith, has_peer-filtered_peers node_id peers p, eq_iff q p)

at-peer_set :
    (set : GoMap Bool) (peers : List String) (p : String)
    → at (peer_set set peers) p ≡ (if has_peer peers p then some true else at set p)
unfolding peer_set has_peer
at-peer_set set [] p = refl
at-peer_set set (q ∷ peers) p =
    ground (arith, at-peer_set (insert set q true) peers p, at-insert set q true p)

is_new : GoMap Bool → Option Bool → String → Bool
is_new old none p = false
is_new old (some _) p = elim (at old p) [ none ↦ true | some _ ↦ false ]

at-mark_peer :
    (old force : GoMap Bool) (q p : String)
    → at (mark_peer old force q) p
      ≡ (if q == p && is_new old (some true) p then some true else at force p)
unfolding mark_peer is_new
at-mark_peer old force q p = ground (arith, at-insert force q true p, eq_iff q p)

at-mark_new :
    (old force new : GoMap Bool) (p : String)
    → at (mark_new old force new) p ≡ (if is_new old (at new p) p then some true else at force p)
unfolding mark_new is_new at
at-mark_new old force [] p = refl
at-mark_new old force ((q, _) ∷ new) p =
    ground
      (arith, at-mark_new old (mark_peer old force q) new p, at-mark_peer old force q p, eq_iff q p)

-- After SetPeers the peers are the given ones other than the node itself and the empty name, and the
-- peers marked for an immediate exchange are those that were marked and those of the new peers that
-- were not peers before.
pub set_peers_lem :
    (g : GossipProtocol) (peers : List String) (p : String)
    → let kept = not (p == "") && not (p == g.node_id) && has_peer peers p in
      (has_peer (set_peers g peers).peers p ≡ kept)
      × (is_marked (at (set_peers g peers).force_sync_peers p)
          ≡ ((kept && not (has_peer g.peers p)) || is_marked (at g.force_sync_peers p)))
unfolding set_peers is_new is_other
set_peers_lem g peers p = (
  ground (arith, has_peer-filtered_peers g.node_id peers p),
  ground (
    arith,
    has_peer-filtered_peers g.node_id peers p,
    at-mark_new (peer_set [] g.peers) g.force_sync_peers
        (peer_set [] (filtered_peers g.node_id peers)) p,
    at-peer_set [] g.peers p,
    at-peer_set [] (filtered_peers g.node_id peers) p,
    at-nil p,
  ),
)
  where
    at-nil : (q : String) → at {V = Bool} [] q ≡ none
    at-nil q = unfold at in refl
