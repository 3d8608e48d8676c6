-- ===== src/Cluster/Manager/Registry.antt =====
-- The registry as a map from a cluster's id and a node's id: what each operation does to an entry.
use faultlab.Prelude.{
  ◌≡◌, ◌≢◌, inl, inr, refl, ℕ, String, ◌&&◌, Option, none, some, arith, if◌then◌else◌, ℤ, at,
  insert, at-insert, at-delete, ◌==◌, eq_iff, Option-cases,
}
use faultlab.Cluster.{FaultState, NodeActionCapabilities, Node, Cluster}
use faultlab.Cluster.Manager.{
  ManagerError, Manager, register_node, remove_node, get_node, heartbeat, set_node_capabilities,
  set_fault_params, change_node, with_node, fresh_node, cluster_or_new, cluster_missing,
  node_missing,
}

module _ {Float : Type 0} where
  -- What a change makes of an entry that may be missing.
  abbrev pub changed :
      Option (Node Float) → (Node Float → Option (Node Float)) → Option (Node Float)
  changed none f = none
  changed (some n) f = f n

  at-with_node :
      (c : Cluster Float) (node_id : String) (n : Option (Node Float)) (q : String)
      → at (with_node c node_id n).nodes q ≡ (if node_id == q then n else at c.nodes q)
  unfolding with_node
  at-with_node c node_id none q = at-delete c.nodes node_id q
  at-with_node c node_id (some n) q = at-insert c.nodes node_id n q

  -- A change of an entry changes this entry only.
  get_node-change_node :
      (m : Manager Float) (c q : String) (node_id r : String) (f : Node Float → Option (Node Float))
      → get_node (change_node (at m.clusters c) m c node_id f).1 q r
        ≡ (if c == q && node_id == r then changed (get_node m c node_id) f else get_node m q r)
  unfolding change_node get_node
  get_node-change_node m c q node_id r f = elim (Option-cases (at m.clusters c)) [
    | inl e ↦ rw e (ground (arith, eq_iff c q, eq_iff node_id r))
    | inr (k, e) ↦ elim (Option-cases (at k.nodes node_id)) [
      | inl e2 ↦ rw (e, change_node, e2) (ground (arith, eq_iff c q, eq_iff node_id r))
      | inr (n, e2) ↦
          rw (e, change_node, e2)
            (ground (
              arith,
              eq_iff c q,
              eq_iff node_id r,
              at-insert m.clusters c (with_node k node_id (f n)) q,
              at-with_node k node_id (f n) r,
            ))
    ]
  ]

  -- The entry (q, r) after a change of the entry (c, n).
  abbrev pub entry_after :
      Manager Float
      → String
      → String
      → String
      → String
      → (Node Float → Option (Node Float))
      → Option (Node Float)
  entry_after m c q n r f = if c == q && n == r then changed (get_node m c n) f else get_node m q r

  -- RemoveNode, Heartbeat, SetNodeCapabilities and SetFaultParams change the entry they name and no
  -- other: it goes; it is active and seen now; it has the reported capabilities; it has the
  -- parameters and the status that they give. A missing entry stays missing.
  pub get_node-changes :
      (m : Manager Float) (c q n r : String) (now epoch : ℕ) (key : String)
      (actions : NodeActionCapabilities) (reported_at : ℤ) (params : FaultState Float)
      → let after = entry_after m c q n r in
        (get_node (remove_node m c n).1 q r ≡ after (λ e. none))
        × (get_node (heartbeat m c n now).1 q r
            ≡ after (λ e. some (record e { last_seen = now; status = "active" })))
        × (get_node (set_node_capabilities m c n key epoch actions reported_at).1 q r
            ≡ after (λ e. some (record e {
              active_protocol_key = key;
              active_protocol_epoch = epoch;
              capabilities = actions;
              capabilities_at = reported_at;
            })))
        × (get_node (set_fault_params m c n params).1 q r
            ≡ after (λ e. some (record e {
              fault = params;
              status = if params.crashed then "crashed" else "active";
            })))
  unfolding remove_node heartbeat set_node_capabilities set_fault_params
  get_node-changes m c q n r now epoch key actions reported_at params = (
    get_node-change_node m c q n r _,
    get_node-change_node m c q n r _,
    get_node-change_node m c q n r _,
    get_node-change_node m c q n r _,
  )

  abbrev pub error_at : Option (Node Float) → Option ManagerError
  error_at none = some node_missing
  error_at (some x) = none

  abbrev pub error_with : Option (Cluster Float) → String → Option ManagerError
  error_with none n = some cluster_missing
  error_with (some k) n = error_at (at k.nodes n)

  -- The error of the two look-ups.
  abbrev pub lookup_error : Manager Float → String → String → Option ManagerError
  lookup_error m c n = error_with (at m.clusters c) n

  change_node-error :
      (found : Option (Cluster Float)) (m : Manager Float) (c n : String)
      (f : Node Float → Option (Node Float))
      → ((change_node found m c n f).0 ≡ error_with found n)
        × (error_with found n ≢ none → (change_node found m c n f).1 ≡ m)
  unfolding change_node
  change_node-error none m c n f = (refl, λ h. refl)
  change_node-error (some k) m c n f = elim (Option-cases (at k.nodes n)) [
    | inl e ↦ rw (e, change_node) (refl, λ h. refl)
    | inr (x, e) ↦ rw (e, change_node) (refl, λ h. absurd (h refl))
  ]

  -- RemoveNode, Heartbeat and SetNodeCapabilities fail exactly when the cluster or the node is
  -- missing, with the error that says which, and then change nothing.
  pub lookup_errors :
      (m : Manager Float) (c n : String) (now epoch : ℕ) (key : String)
      (actions : NodeActionCapabilities) (reported_at : ℤ)
      → ((remove_node m c n).0 ≡ lookup_error m c n)
        × ((heartbeat m c n now).0 ≡ lookup_error m c n)
        × ((set_node_capabilities m c n key epoch actions reported_at).0 ≡ lookup_error m c n)
        × (lookup_error m c n ≢ none
            → ((remove_node m c n).1 ≡ m)
              × ((heartbeat m c n now).1 ≡ m)
              × ((set_node_capabilities m c n key epoch actions reported_at).1 ≡ m))
  unfolding remove_node heartbeat set_node_capabilities
  lookup_errors m c n now epoch key actions reported_at = (
    (change_node-error (at m.clusters c) m c n _).0,
    (change_node-error (at m.clusters c) m c n _).0,
    (change_node-error (at m.clusters c) m c n _).0,
    λ h. (
      (change_node-error (at m.clusters c) m c n _).1 h,
      (change_node-error (at m.clusters c) m c n _).1 h,
      (change_node-error (at m.clusters c) m c n _).1 h,
    ),
  )

  -- RegisterNode writes a fresh entry, with the default faults also for a node that was there, and
  -- leaves every other entry alone.
  pub get_node-register_node :
      (zero_rate : Float) (m : Manager Float) (c q n r address : String) (port : ℤ) (now : ℕ)
      → get_node (register_node zero_rate m c n address port now).0 q r ≡ (
          if c == q && n == r
          then some (fresh_node zero_rate n address port now)
          else get_node m q r)
  unfolding register_node get_node cluster_or_new at
  get_node-register_node zero_rate m c q n r address port now =
      let k = cluster_or_new (at m.clusters c) c in
      let fresh = fresh_node zero_rate n address port now in
      ground (
        arith,
        eq_iff c q,
        eq_iff n r,
        at-insert m.clusters c (record k { nodes = insert k.nodes n fresh }) q,
        at-insert k.nodes n fresh r,
      )
