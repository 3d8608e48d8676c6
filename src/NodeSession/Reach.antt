-- ===== src/NodeSession/Reach.antt =====
-- The invariant of a session in every state it reaches.
use mathlib.Core.Path.{subst}
use mathlib.Core.Option.{some-injective, none-ne-some}
use faultlab.Prelude.{
  suc, ◌<◌, ◌≤◌, max_int64, ℕ, ◌≡◌, refl, String, Bool, Option, none, some, List, ℤ, GoMap, at,
  at-insert, insert, IsMap, insert-IsMap, ◌==◌, eq_iff, Option-cases, Bool-cases, inl, inr, arith,
}
use faultlab.Protocol.{Envelope}
use faultlab.Fault.{Decision}
use faultlab.NodeSession.{
  PeerInfo, PeerState, NodeSession, Network, new_node_session, on_peers_updated, probe_peers,
  probe_tick, send_decided, send,
}
use faultlab.NodeSession.Health.{
  IsPeer, weaken-IsPeer, send_decided-IsPeer, probed, probed-IsPeer, at-probe_peers,
  probe_peers-IsMap,
}
use faultlab.NodeSession.Topology.{
  entry_of, entry_of-id, on_peers_updated-IsMap, peer_after, at-on_peers_updated,
}

pub record IsSession (n : ℕ) (ns : NodeSession) : Type 0 where
  pub distinct : IsMap ns.peers
  pub sound : (id : String) (ps : PeerState) → at ns.peers id ≡ some ps → IsPeer n id ps

-- One operation, with what the network and the decisions are at the time.
pub data Step (Bytes : Type 0) (ns : NodeSession) : NodeSession → Type 0 where
  updating : (infos : List PeerInfo) → Step Bytes ns (on_peers_updated ns infos)
  probing :
      (tick : Decision) (before_probe : String → Decision) (net : String → Network) (now : ℕ)
      → Step Bytes ns (probe_tick tick before_probe net now ns)
  sending :
      (env : Envelope Bytes) (before_send : String → Decision) (cut_short : Bool) (net : Network)
      (now : ℕ)
      → Step Bytes ns (send ns env before_send cut_short net now).1

-- The states that so many operations since NewNodeSession lead to.
pub data Reachable (Bytes : Type 0) : ℕ → NodeSession → Type 0 where
  created : (addr id : String) (port : ℤ) → Reachable Bytes 0 (new_node_session addr id port)
  later :
      {n : ℕ} {ns ns' : NodeSession}
      → Reachable Bytes n ns
      → Step Bytes ns ns'
      → Reachable Bytes (suc n) ns'

-- Every peer of the map stands under its id, with its health.
abbrev AllSound : ℕ → GoMap PeerState → Type 0
AllSound n peers = (id : String) (ps : PeerState) → at peers id ≡ some ps → IsPeer n id ps

insert-AllSound :
    (n : ℕ) (peers : GoMap PeerState) (k : String) (new : PeerState)
    → AllSound n peers
    → IsPeer n k new
    → AllSound n (insert peers k new)
insert-AllSound n peers k new all v id ps e = elim (Bool-cases (k == id)) [
  | inl same ↦
      let found : some new ≡ some ps = ground (arith, at-insert peers k new id, same, e) in
      subst (λ p. IsPeer n id p) (some-injective _ _ found)
        (subst (λ i. IsPeer n i new) ((eq_iff k id).0 same) v)
  | inr other ↦
      let before : at peers id ≡ some ps = ground (arith, at-insert peers k new id, other, e) in
      all id ps before
]

weaken-AllSound : (n : ℕ) (peers : GoMap PeerState) → AllSound n peers → AllSound (suc n) peers
weaken-AllSound n peers all id ps e = weaken-IsPeer n id ps (all id ps e)

weaken-IsSession : (n : ℕ) (ns : NodeSession) → IsSession n ns → IsSession (suc n) ns
weaken-IsSession n ns v = record {
  distinct = v.distinct;
  sound = weaken-AllSound n ns.peers v.sound;
}

send-IsSession :
    {Bytes : Type 0} (ns : NodeSession) (env : Envelope Bytes) (net : Network) (now n : ℕ)
    (before_send : String → Decision) (cut_short : Bool)
    → n < max_int64
    → IsSession n ns
    → IsSession (suc n) (send ns env before_send cut_short net now).1
unfolding send
send-IsSession ns env net now n before_send cut_short room v =
    elim (Option-cases (at ns.peers env.to)) [
      | inl e ↦ rw (e, send) (weaken-IsSession n ns v)
      | inr (ps, e) ↦
          let ps' = (send_decided ns env (before_send ps.id) cut_short net now ps).1 in
          let good =
            send_decided-IsPeer ns env net now n room (before_send ps.id) cut_short env.to ps
              (v.sound env.to ps e) in
          rw (e, send)
            (record {
              distinct = insert-IsMap ns.peers env.to ps' v.distinct;
              sound =
                  insert-AllSound (suc n) ns.peers env.to ps' (weaken-AllSound n ns.peers v.sound)
                    good;
            })
    ]

module _ (self : String) (before_probe : String → Decision) (net : String → Network) (now : ℕ) where
  probe_peers-AllSound :
      (n : ℕ) (peers : GoMap PeerState)
      → n < max_int64
      → AllSound n peers
      → AllSound (suc n) (probe_peers self before_probe net now peers)
  probe_peers-AllSound n peers room all id ps e = elim (Option-cases (at peers id)) [
    | inl missing ↦
        let gone : none ≡ some ps =
          ground (arith, at-probe_peers self before_probe net now peers id, missing, e) in
        absurd (none-ne-some _ gone)
    | inr (old, found) ↦
        let same : some (probed self before_probe net now old) ≡ some ps =
          ground (arith, at-probe_peers self before_probe net now peers id, found, e) in
        subst (λ p. IsPeer (suc n) id p) (some-injective _ _ same)
          (probed-IsPeer self before_probe net now n id old room (all id old found))
  ]

peer_after-IsPeer :
    (n : ℕ) (info : PeerInfo) (id : String) (old : Option PeerState) (ps : PeerState)
    → ((was : PeerState) → old ≡ some was → IsPeer n id was)
    → info.id ≡ id
    → peer_after (some info) old ≡ some ps
    → IsPeer n id ps
peer_after-IsPeer n info id none ps all own e =
    subst (λ p. IsPeer n id p) (some-injective _ _ e)
      (record { own_id = own; failures = 0; counted = refl; bounded = omega arith; healthy = refl })
peer_after-IsPeer n info id (some was) ps all own e =
    let old = all was refl in
    subst (λ p. IsPeer n id p) (some-injective _ _ e)
      (record {
        own_id = old.own_id;
        failures = old.failures;
        counted = old.counted;
        bounded = old.bounded;
        healthy = old.healthy;
      })

on_peers_updated-AllSound :
    (n : ℕ) (ns : NodeSession) (infos : List PeerInfo)
    → IsSession n ns
    → AllSound n (on_peers_updated ns infos).peers
on_peers_updated-AllSound n ns infos v id ps e = elim (Option-cases (entry_of infos id)) [
  | inl missing ↦
      let gone : none ≡ some ps =
        ground (arith, at-on_peers_updated ns infos id v.distinct, missing, e) in
      absurd (none-ne-some _ gone)
  | inr (info, found) ↦
      let same : peer_after (some info) (at ns.peers id) ≡ some ps =
        ground (arith, at-on_peers_updated ns infos id v.distinct, found, e) in
      peer_after-IsPeer n info id (at ns.peers id) ps (v.sound id) (entry_of-id infos id info found)
        same
]

updating-IsSession :
    (n : ℕ) (ns : NodeSession) (infos : List PeerInfo)
    → IsSession n ns
    → IsSession n (on_peers_updated ns infos)
updating-IsSession n ns infos v = record {
  distinct = on_peers_updated-IsMap ns infos v.distinct;
  sound = on_peers_updated-AllSound n ns infos v;
}

probing-IsSession :
    (tick : Decision) (before_probe : String → Decision) (net : String → Network) (now n : ℕ)
    (ns : NodeSession)
    → n < max_int64
    → IsSession n ns
    → IsSession (suc n) (probe_tick tick before_probe net now ns)
unfolding probe_tick
probing-IsSession tick before_probe net now n ns room v = elim (Bool-cases tick.allow) [
  | inr off ↦ rw off (weaken-IsSession n ns v)
  | inl on ↦ rw on (record {
    distinct = probe_peers-IsMap ns.node_id before_probe net now ns.peers v.distinct;
    sound = probe_peers-AllSound ns.node_id before_probe net now n ns.peers room v.sound;
  })
]

Step-IsSession :
    {Bytes : Type 0} {ns ns' : NodeSession} (n : ℕ)
    → n < max_int64
    → IsSession n ns
    → Step Bytes ns ns'
    → IsSession (suc n) ns'
Step-IsSession {Bytes} {ns} n room v (updating infos) =
    weaken-IsSession n (on_peers_updated ns infos) (updating-IsSession n ns infos v)
Step-IsSession {Bytes} {ns} n room v (probing tick before_probe net now) =
    probing-IsSession tick before_probe net now n ns room v
Step-IsSession {Bytes} {ns} n room v (sending env before_send cut_short net now) =
    send-IsSession ns env net now n before_send cut_short room v

-- In every state that at most 2^63 - 1 operations since NewNodeSession lead to, no id stands twice
-- in the map, and each peer has the id it stands under; its failCount is not negative and at most
-- the number of operations, and its health is what failCount and lastSuccess say: suspect with one
-- failure, dead from two on, and with none alive or, where it never was reached, suspect.
pub Reachable-IsSession :
    {Bytes : Type 0} {n : ℕ} {ns : NodeSession}
    → Reachable Bytes n ns
    → n ≤ max_int64
    → IsSession n ns
unfolding new_node_session at
Reachable-IsSession (created addr id port) few = record {
  distinct = tt;
  sound = λ id ps e. absurd (none-ne-some _ e);
}
Reachable-IsSession (later {n} before step) few =
    Step-IsSession n (omega (arith, few)) (Reachable-IsSession before (omega (arith, few))) step
