-- ===== src/Cluster/Manager/Survival.antt =====
-- Who survives a round of Cleanup, and whom a new node learns of.
use faultlab.Prelude.{
  ◌≡◌, ◌∙◌, refl, ℕ, ◌+◌, ◌≤◌, String, Bool, true, false, not, ◌&&◌, Option, none, some, [], ◌∷◌,
  map, arith, ℤ, pos, GoMap, at, insert, at-insert, IsMap, ◌==◌, eq_iff, eq_refl,
}
use faultlab.Gossip.Peers.{has_peer}
use faultlab.Cluster.{FaultState, Node, no_capabilities}
use faultlab.Cluster.Manager.{
  Manager, register_node, heartbeat, set_fault_params, cleanup, get_node, other_nodes,
  cluster_or_new, fresh_node,
}
use faultlab.Cluster.Manager.Cleanup.{get_node-cleanup, remaining}
use faultlab.Cluster.Manager.Registry.{get_node-changes}
use faultlab.Cluster.Manager.Reach.{
  injecting, beating, registering, Reachable, later, Reachable-IsRegistry,
}

module _ {Float : Type 0} where
  cleanup-Reachable :
      (zero_rate : Float) (m : Manager Float) (timeout : ℕ) (now : String → String → ℕ)
      (c n : String)
      → Reachable zero_rate m
      → get_node (cleanup timeout now m) c n ≡ remaining timeout (now c n) (get_node m c n)
  cleanup-Reachable zero_rate m timeout now c n r =
      get_node-cleanup timeout now m c n
        (λ k e. let (i, p, im, ids) = Reachable-IsRegistry zero_rate m r c k e in im)

  -- In a state that the operations lead to: once a crash was injected into a node of the registry,
  -- the next round of Cleanup keeps the node, with the parameters and the status crashed, however
  -- long it was silent.
  pub crashed_survives :
      (zero_rate : Float) (m : Manager Float) (timeout : ℕ) (now : String → String → ℕ)
      (c n : String) (x : Node Float) (params : FaultState Float)
      → Reachable zero_rate m
      → get_node m c n ≡ some x
      → params.crashed ≡ true
      → get_node (cleanup timeout now (set_fault_params m c n params).1) c n
        ≡ some (record x { fault = params; status = "crashed" })
  crashed_survives zero_rate m timeout now c n x params r found crashed =
      let m' = (set_fault_params m c n params).1 in
      let (a, b, d, stored) = get_node-changes m c c n n 0 0 "" no_capabilities (pos 0) params in
      cleanup-Reachable zero_rate m' timeout now c n (later r (injecting c n params))
      ∙ rw (stored, eq_refl c, eq_refl n, found, crashed) (ground arith)

  -- In a state that the operations lead to: a node of the registry that sent a heartbeat survives a
  -- round of Cleanup whose clock is at most the time-out later, and is active.
  pub heartbeat_survives :
      (zero_rate : Float) (m : Manager Float) (timeout : ℕ) (now : String → String → ℕ)
      (c n : String) (x : Node Float) (t : ℕ)
      → Reachable zero_rate m
      → get_node m c n ≡ some x
      → now c n ≤ t + timeout
      → get_node (cleanup timeout now (heartbeat m c n t).1) c n
        ≡ some (record x { last_seen = t; status = "active" })
  heartbeat_survives zero_rate m timeout now c n x t r found soon =
      let m' = (heartbeat m c n t).1 in
      let (a, beat, b, d) = get_node-changes m c c n n t 0 "" no_capabilities (pos 0) x.fault in
      cleanup-Reachable zero_rate m' timeout now c n (later r (beating c n t))
      ∙ rw (beat, eq_refl c, eq_refl n, found) (ground arith)

  abbrev pub is_some : Option (Node Float) → Bool
  is_some none = false
  is_some (some x) = true

  ids-other_nodes :
      (n : String) (nodes : GoMap (Node Float)) (q : String)
      → ((r : String) (x : Node Float) → at nodes r ≡ some x → x.id ≡ r)
      → IsMap nodes
      → has_peer (map (λ x. x.id) (other_nodes n nodes)) q ≡ (not (n == q) && is_some (at nodes q))
  unfolding other_nodes has_peer at
  ids-other_nodes n [] q ids im = ground arith
  ids-other_nodes n ((r, x) ∷ nodes) q ids im =
      let own = ids r x (rw (eq_refl r) refl) in
      let rest =
        ids-other_nodes n nodes q (λ s y e. ids s y (ground (arith, eq_iff r s, im.0, e))) im.1 in
      ground (arith, eq_iff r n, eq_iff r q, eq_iff n q, im.0)

  -- In a state that the operations lead to, the peers that RegisterNode returns are the other nodes
  -- of the cluster.
  pub register_node-peers :
      (zero_rate : Float) (m : Manager Float) (c n q address : String) (port : ℤ) (now : ℕ)
      → Reachable zero_rate m
      → let (m', peers) = register_node zero_rate m c n address port now in
        has_peer (map (λ x. x.id) peers) q ≡ (not (n == q) && is_some (get_node m' c q))
  unfolding register_node get_node
  register_node-peers zero_rate m c n q address port now r =
      let k = cluster_or_new (at m.clusters c) c in
      let grown = record k { nodes = insert k.nodes n (fresh_node zero_rate n address port now) } in
      let m' = record m { clusters = insert m.clusters c grown } in
      let e = at-insert m.clusters c grown c ∙ rw (eq_refl c) refl in
      let (i, p, im, ids) =
        Reachable-IsRegistry zero_rate m' (later r (registering c n address port now)) c grown e in
      rw (get_node, e) (ids-other_nodes n grown.nodes q ids im)
