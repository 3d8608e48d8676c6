-- ===== src/Baseline/Peers.antt =====
-- What SetPeers does to the failure detector's peers.
use faultlab.Prelude.{
  ◌≡◌, ◌∙◌, refl, ℕ, ◌+◌, ◌%◌, ◌^◌, ◌<◌, String, Bool, true, Option, none, some, List, [], ◌∷◌,
  arith, if◌then◌else◌, ℤ, GoMap, at, at-insert, eq_iff, ◌==◌,
}
use faultlab.Protocol.{Codec}
use faultlab.Gossip.Peers.{has_peer}
use faultlab.Baseline.{
  alive, suspect, MembershipEvent, BaselineProtocol, number_at, status_at, sub64, tick, set_peers,
  admit_peer, admit_peers,
}
use faultlab.Baseline.Ticks.{tick_lem, status_at-insert}

-- What a peer's entries are after it was admitted, if it was unknown.
abbrev pub seen_or_zero : Option ℕ → Bool → Option ℕ
seen_or_zero none listed = if listed then some 0 else none
seen_or_zero (some n) listed = some n

abbrev pub status_or_alive : Option ℕ → Bool → ℤ → ℤ
status_or_alive none listed s = if listed then alive else s
status_or_alive (some n) listed s = s

admit_peer_lem :
    (b : BaselineProtocol) (q p : String)
    → (at (admit_peer (at b.last_seen q) b q).last_seen p
        ≡ seen_or_zero (at b.last_seen p) (q == p))
      × (status_at (admit_peer (at b.last_seen q) b q).status p
          ≡ status_or_alive (at b.last_seen p) (q == p) (status_at b.status p))
unfolding admit_peer
admit_peer_lem b q p = (
  ground (arith, eq_iff q p, at-insert b.last_seen q 0 p),
  ground (arith, eq_iff q p, status_at-insert b.status q alive p),
)

admit_peer-keeps :
    (o : Option ℕ) (b : BaselineProtocol) (q : String)
    → ((admit_peer o b q).tick ≡ b.tick)
      × ((admit_peer o b q).timeout_ticks ≡ b.timeout_ticks)
      × ((admit_peer o b q).peers ≡ b.peers)
unfolding admit_peer
admit_peer-keeps none b q = (refl, refl, refl)
admit_peer-keeps (some n) b q = (refl, refl, refl)

admit_peers-keeps :
    (b : BaselineProtocol) (ps : List String)
    → ((admit_peers b ps).tick ≡ b.tick)
      × ((admit_peers b ps).timeout_ticks ≡ b.timeout_ticks)
      × ((admit_peers b ps).peers ≡ b.peers)
unfolding admit_peers
admit_peers-keeps b [] = (refl, refl, refl)
admit_peers-keeps b (q ∷ ps) =
    let k = admit_peer-keeps (at b.last_seen q) b q in
    let r = admit_peers-keeps (admit_peer (at b.last_seen q) b q) ps in ground arith

admit_peers_lem :
    (b : BaselineProtocol) (ps : List String) (p : String)
    → (at (admit_peers b ps).last_seen p ≡ seen_or_zero (at b.last_seen p) (has_peer ps p))
      × (status_at (admit_peers b ps).status p
          ≡ status_or_alive (at b.last_seen p) (has_peer ps p) (status_at b.status p))
unfolding admit_peers has_peer
admit_peers_lem b [] p = ground arith
admit_peers_lem b (q ∷ ps) p =
    let (s, t) = admit_peer_lem b q p in
    let (u, v) = admit_peers_lem (admit_peer (at b.last_seen q) b q) ps p in
    (ground (arith, eq_iff q p), ground (arith, eq_iff q p))

-- SetPeers replaces the peers; a listed peer that was never seen is alive and counts as heard at
-- tick 0, and every other node keeps the moment it was heard and its status.
pub set_peers_admits :
    (b : BaselineProtocol) (ps : List String) (p : String)
    → ((set_peers b ps).peers ≡ ps)
      × (at (set_peers b ps).last_seen p ≡ seen_or_zero (at b.last_seen p) (has_peer ps p))
      × (status_at (set_peers b ps).status p
          ≡ status_or_alive (at b.last_seen p) (has_peer ps p) (status_at b.status p))
unfolding set_peers
set_peers_admits b ps p =
    let (t, l, e) = admit_peers-keeps (record b { peers = ps }) ps in
    let (seen, s) = admit_peers_lem (record b { peers = ps }) ps p in (e, seen, s)

set_peers-keeps :
    (b : BaselineProtocol) (ps : List String)
    → ((set_peers b ps).tick ≡ b.tick) × ((set_peers b ps).timeout_ticks ≡ b.timeout_ticks)
unfolding set_peers
set_peers-keeps b ps = let (t, l, e) = admit_peers-keeps (record b { peers = ps }) ps in (t, l)

number_at-zero : (m : GoMap ℕ) (p : String) → at m p ≡ some 0 → number_at m p ≡ 0
unfolding number_at
number_at-zero m p h = ground arith

sub64_zero : (a : ℕ) → a < 2 ^ 64 → sub64 (a % 2 ^ 64) 0 ≡ a
sub64_zero a h = omega arith

-- A peer that was never seen and that SetPeers adds when the next tick is past the limit is suspect
-- after that very Tick, if it does not overflow the counter: it counts as silent since tick 0.
pub new_peer_suspect :
    (json : Codec MembershipEvent) (beat : json.Bytes) (b : BaselineProtocol) (ps : List String)
    (p : String)
    → at b.last_seen p ≡ none
    → has_peer ps p ≡ true
    → b.timeout_ticks < b.tick + 1
    → b.tick + 1 < 2 ^ 64
    → status_at (tick json beat (set_peers b ps)).0.status p ≡ suspect
new_peer_suspect json beat b ps p unseen listed late bound =
    let (e, seen, s) = set_peers_admits b ps p in
    let (t, l) = set_peers-keeps b ps in
    let (s', n, kept) = tick_lem json beat (set_peers b ps) p in
    let zero = number_at-zero (set_peers b ps).last_seen p (ground arith) in
    s' ∙ rw (e, listed, s, unseen, t, l, zero) (ground (arith, sub64_zero (b.tick + 1) bound))
