-- ===== src/NodeSession/Topology.antt =====
-- The peers that OnPeersUpdated leaves.
use mathlib.Core.Path.{subst}
use mathlib.Core.Option.{some-injective, none-ne-some}
use faultlab.Prelude.{
  pos, ◌&&◌, ◌=ℤ=◌, eq_of_parts, Bool-cases, ◌≡◌, false, refl, ◌∙◌, String, Option, none, some,
  List, [], ◌∷◌, if◌then◌else◌, GoMap, at, at-insert, insert, IsMap, insert-IsMap, ◌==◌, eq_iff,
  eq_refl, Option-cases, inl, inr, arith,
}
use faultlab.NodeSession.{
  peer_suspect, PeerInfo, PeerState, NodeSession, peer_set, keep_present, fresh_peer, add_new,
  with_endpoint, update_endpoints, on_peers_updated,
}

-- The last entry of the list with the id.
unfoldable pub entry_of : List PeerInfo → String → Option PeerInfo
entry_of [] id = none
entry_of (p ∷ peers) id =
    let rest = entry_of peers id in
    elim rest [ some q ↦ some q | none ↦ if p.id == id then some p else none ]

pub entry_of-id :
    (infos : List PeerInfo) (id : String) (info : PeerInfo)
    → entry_of infos id ≡ some info
    → info.id ≡ id
unfolding entry_of
entry_of-id [] id info e = absurd (none-ne-some _ e)
entry_of-id (p ∷ infos) id info e = elim (Option-cases (entry_of infos id)) [
  | inr (q, found) ↦
      let same : some q ≡ some info = ground (arith, found, e) in
      entry_of-id infos id info (found ∙ same)
  | inl missing ↦ elim (Bool-cases (p.id == id)) [
    | inl own ↦
        let same : some p ≡ some info = ground (arith, missing, own, e) in
        subst (λ q. q.id ≡ id) (some-injective _ _ same) ((eq_iff p.id id).0 own)
    | inr other ↦
        let bad : none ≡ some info = ground (arith, missing, other, e) in
        absurd (none-ne-some _ bad)
  ]
]

at-peer_set :
    (set : GoMap PeerInfo) (peers : List PeerInfo) (id : String)
    → at (peer_set set peers) id ≡ (elim (entry_of peers id) [ some q ↦ some q | none ↦ at set id ])
unfolding peer_set entry_of
at-peer_set set [] id = refl
at-peer_set set (p ∷ peers) id =
    ground (arith, at-peer_set (insert set p.id p) peers id, at-insert set p.id p id)

peer_set-IsMap :
    (set : GoMap PeerInfo) (peers : List PeerInfo) → IsMap set → IsMap (peer_set set peers)
unfolding peer_set
peer_set-IsMap set [] h = h
peer_set-IsMap set (p ∷ peers) h =
    peer_set-IsMap (insert set p.id p) peers (insert-IsMap set p.id p h)

pub at-keep_present :
    (set : GoMap PeerInfo) (peers : GoMap PeerState) (id : String)
    → IsMap peers
    → at (keep_present set peers) id ≡ (elim (at set id) [ none ↦ none | some _ ↦ at peers id ])
unfolding keep_present at
at-keep_present set [] id h = ground arith
at-keep_present set ((j, ps) ∷ peers) id h =
    ground (arith, at-keep_present set peers id h.1, eq_iff j id)

at-add_new :
    (set : GoMap PeerInfo) (peers : GoMap PeerState) (id : String)
    → IsMap set
    → at (add_new set peers) id ≡ (elim (at peers id) [
      | some ps ↦ some ps
      | none ↦ elim (at set id) [ none ↦ none | some info ↦ some (fresh_peer info) ]
    ])
unfolding add_new at
at-add_new [] peers id h = ground arith
at-add_new ((j, info) ∷ set) peers id h = elim (Option-cases (at peers j)) [
  | inl e ↦
      rw (e, add_new)
        (ground (
          arith,
          at-add_new set (insert peers j (fresh_peer info)) id h.1,
          at-insert peers j (fresh_peer info) id,
          eq_iff j id,
        ))
  | inr (ps, e) ↦ rw (e, add_new) (ground (arith, at-add_new set peers id h.1, eq_iff j id))
]

at-update_endpoints :
    (set : GoMap PeerInfo) (peers : GoMap PeerState) (id : String)
    → IsMap set
    → at (update_endpoints set peers) id ≡ (elim (at peers id) [
      | none ↦ none
      | some ps ↦ some (elim (at set id) [ none ↦ ps | some info ↦ with_endpoint info ps ])
    ])
unfolding update_endpoints at
at-update_endpoints [] peers id h = ground arith
at-update_endpoints ((j, info) ∷ set) peers id h = elim (Option-cases (at peers j)) [
  | inl e ↦
      rw (e, update_endpoints) (ground (arith, at-update_endpoints set peers id h.1, eq_iff j id))
  | inr (ps, e) ↦
      rw (e, update_endpoints)
        (ground (
          arith,
          at-update_endpoints set (insert peers j (with_endpoint info ps)) id h.1,
          at-insert peers j (with_endpoint info ps) id,
          eq_iff j id,
        ))
]

keep_present-IsMap :
    (set : GoMap PeerInfo) (peers : GoMap PeerState) → IsMap peers → IsMap (keep_present set peers)
unfolding keep_present
keep_present-IsMap set [] h = tt
keep_present-IsMap set ((j, ps) ∷ peers) h = elim (Option-cases (at set j)) [
  | inl e ↦ rw (e, keep_present) (keep_present-IsMap set peers h.1)
  | inr (info, e) ↦
      rw (e, keep_present)
        (ground (arith, at-keep_present set peers j h.1), keep_present-IsMap set peers h.1)
]

add_new-IsMap :
    (set : GoMap PeerInfo) (peers : GoMap PeerState) → IsMap peers → IsMap (add_new set peers)
unfolding add_new
add_new-IsMap [] peers h = h
add_new-IsMap ((j, info) ∷ set) peers h = elim (Option-cases (at peers j)) [
  | inl e ↦
      rw (e, add_new)
        (add_new-IsMap set (insert peers j (fresh_peer info))
          (insert-IsMap peers j (fresh_peer info) h))
  | inr (ps, e) ↦ rw (e, add_new) (add_new-IsMap set peers h)
]

update_endpoints-IsMap :
    (set : GoMap PeerInfo) (peers : GoMap PeerState)
    → IsMap peers
    → IsMap (update_endpoints set peers)
unfolding update_endpoints
update_endpoints-IsMap [] peers h = h
update_endpoints-IsMap ((j, info) ∷ set) peers h = elim (Option-cases (at peers j)) [
  | inl e ↦ rw (e, update_endpoints) (update_endpoints-IsMap set peers h)
  | inr (ps, e) ↦
      rw (e, update_endpoints)
        (update_endpoints-IsMap set (insert peers j (with_endpoint info ps))
          (insert-IsMap peers j (with_endpoint info ps) h))
]

with_endpoint-fresh_peer :
    (info : PeerInfo) → with_endpoint info (fresh_peer info) ≡ fresh_peer info
unfolding with_endpoint fresh_peer
with_endpoint-fresh_peer info = ground (arith, eq_refl info.host)

-- A peer that the session has not reached yet.
abbrev pub unknown_peer : PeerInfo → PeerState
unknown_peer info = record {
  id = info.id;
  host = info.host;
  port = info.port;
  connected = false;
  last_success = none;
  fail_count = pos 0;
  health = peer_suspect;
}

-- The peer at the endpoint, connected only where it was and has not moved.
abbrev pub at_endpoint : PeerInfo → PeerState → PeerState
at_endpoint info ps = record ps {
  host = info.host;
  port = info.port;
  connected = if ps.host == info.host && ps.port =ℤ= info.port then ps.connected else false;
}

same_endpoint :
    (info : PeerInfo) (ps : PeerState)
    → ps.host ≡ info.host
    → ps.port ≡ info.port
    → ps ≡ record ps { host = info.host; port = info.port }
same_endpoint info ps p q = λ i. record ps { host = p i; port = q i }

with_endpoint_lem : (info : PeerInfo) (ps : PeerState) → with_endpoint info ps ≡ at_endpoint info ps
unfolding with_endpoint
with_endpoint_lem info ps = elim (Bool-cases (ps.host == info.host)) [
  | inr h ↦ rw h refl
  | inl h ↦ elim (Bool-cases (ps.port =ℤ= info.port)) [
    | inr p ↦ rw (h, p) refl
    | inl p ↦
        rw (h, p)
          (same_endpoint info ps ((eq_iff ps.host info.host).0 h)
            (eq_of_parts ps.port info.port (ground (arith, p))))
  ]
]

-- What becomes of the state of a peer.
abbrev pub peer_after : Option PeerInfo → Option PeerState → Option PeerState
peer_after none old = none
peer_after (some info) none = some (unknown_peer info)
peer_after (some info) (some ps) = some (at_endpoint info ps)

-- After OnPeersUpdated a peer is there exactly when the list has its id, and by the last such entry:
-- a new one has no success, no failure and no connection and is suspect; an old one takes the
-- endpoint of the entry, keeps its failures, its last success and its health, and is connected
-- exactly if it was and the endpoint is the same. No id stands twice in the map before.
pub at-on_peers_updated :
    (ns : NodeSession) (infos : List PeerInfo) (id : String)
    → IsMap ns.peers
    → at (on_peers_updated ns infos).peers id ≡ peer_after (entry_of infos id) (at ns.peers id)
unfolding on_peers_updated fresh_peer
at-on_peers_updated ns infos id h =
    let set = peer_set [] infos in
    let m = peer_set-IsMap [] infos tt in
    let e = at-peer_set [] infos id in
    let k = at-keep_present set ns.peers id h in
    let a = at-add_new set (keep_present set ns.peers) id m in
    let u = at-update_endpoints set (add_new set (keep_present set ns.peers)) id m in
    elim (Option-cases (entry_of infos id)) [
      | inl missing ↦ unfold at in ground (arith, e, k, a, u)
      | inr (info, found) ↦ elim (Option-cases (at ns.peers id)) [
        | inl new ↦ rw new (ground (arith, e, k, a, u, with_endpoint-fresh_peer info))
        | inr (ps, known) ↦ rw known (ground (arith, e, k, a, u, with_endpoint_lem info ps))
      ]
    ]

pub on_peers_updated-IsMap :
    (ns : NodeSession) (infos : List PeerInfo)
    → IsMap ns.peers
    → IsMap (on_peers_updated ns infos).peers
unfolding on_peers_updated
on_peers_updated-IsMap ns infos h =
    let set = peer_set [] infos in
    update_endpoints-IsMap set _ (add_new-IsMap set _ (keep_present-IsMap set ns.peers h))
