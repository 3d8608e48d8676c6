-- ===== src/Cluster/Manager/Clusters.antt =====
-- What CreateCluster, SwapProtocol and RemoveCluster do to the clusters.
use faultlab.Prelude.{
  ◌≡◌, refl, inl, inr, String, Option, none, some, [], arith, if◌then◌else◌, at, at-insert,
  at-delete, eq_iff, ◌==◌, Option-cases,
}
use faultlab.Cluster.{Cluster}
use faultlab.Cluster.Manager.{
  ManagerError, unsupported_protocol, cluster_exists, cluster_missing, Manager, chosen_protocol,
  create_cluster, create_chosen, remove_cluster, swap_protocol, swap_chosen, get_cluster,
}

module _ {Float : Type 0} where
  -- The error and the cluster that CreateCluster ends with, from the chosen protocol and the cluster
  -- that was there.
  abbrev pub created :
      Option String → Option (Cluster Float) → String → Option ManagerError × Option (Cluster Float)
  created none old c = (some unsupported_protocol, old)
  created (some p) (some k) c = (some cluster_exists, some k)
  created (some p) none c = (none, some record { id = c; protocol = p; nodes = [] })

  abbrev pub swapped :
      Option String → Option (Cluster Float) → Option ManagerError × Option (Cluster Float)
  swapped none old = (some unsupported_protocol, old)
  swapped (some p) none = (some cluster_missing, none)
  swapped (some p) (some k) = (none, some (record k { protocol = p }))

  abbrev pub removed : Option (Cluster Float) → Option ManagerError × Option (Cluster Float)
  removed none = (some cluster_missing, none)
  removed (some k) = (none, none)

  create_chosen_lem :
      (p : Option String) (o : Option (Cluster Float)) (m : Manager Float) (c q : String)
      → at m.clusters c ≡ o
      → ((create_chosen p o m c).0 ≡ (created p o c).0)
        × (at (create_chosen p o m c).1.clusters q
            ≡ (if c == q then (created p o c).1 else at m.clusters q))
  unfolding create_chosen
  create_chosen_lem none o m c q e = (refl, ground (arith, eq_iff c q))
  create_chosen_lem (some p) (some k) m c q e = (refl, ground (arith, eq_iff c q))
  create_chosen_lem (some p) none m c q e =
      (refl, at-insert m.clusters c record { id = c; protocol = p; nodes = [] } q)

  swap_chosen_lem :
      (p : Option String) (o : Option (Cluster Float)) (m : Manager Float) (c q : String)
      → at m.clusters c ≡ o
      → ((swap_chosen p o m c).0 ≡ (swapped p o).0)
        × (at (swap_chosen p o m c).1.clusters q
            ≡ (if c == q then (swapped p o).1 else at m.clusters q))
  unfolding swap_chosen
  swap_chosen_lem none o m c q e = (refl, ground (arith, eq_iff c q))
  swap_chosen_lem (some p) none m c q e = (refl, ground (arith, eq_iff c q))
  swap_chosen_lem (some p) (some k) m c q e =
      (refl, at-insert m.clusters c (record k { protocol = p }) q)

  remove_cluster_lem :
      (m : Manager Float) (c q : String)
      → ((remove_cluster m c).0 ≡ (removed (at m.clusters c)).0)
        × (at (remove_cluster m c).1.clusters q
            ≡ (if c == q then (removed (at m.clusters c)).1 else at m.clusters q))
  unfolding remove_cluster
  remove_cluster_lem m c q = elim (Option-cases (at m.clusters c)) [
    | inl e ↦ rw (remove_cluster, e) (refl, ground (arith, eq_iff c q))
    | inr (k, e) ↦ rw (remove_cluster, e) (refl, at-delete m.clusters c q)
  ]

  -- CreateCluster adds an empty cluster with a supported protocol (gossip when none is named) unless
  -- the cluster is there, SwapProtocol changes the protocol of a cluster that is there to a
  -- supported one, RemoveCluster removes one that is there. Each fails exactly otherwise, and
  -- changes no other cluster.
  pub get_cluster-changes :
      (m : Manager Float) (c q protocol : String)
      → let p = chosen_protocol protocol in
        let old = get_cluster m c in
        ((create_cluster m c protocol).0 ≡ (created p old c).0)
        × (get_cluster (create_cluster m c protocol).1 q
            ≡ (if c == q then (created p old c).1 else get_cluster m q))
        × ((swap_protocol m c protocol).0 ≡ (swapped p old).0)
        × (get_cluster (swap_protocol m c protocol).1 q
            ≡ (if c == q then (swapped p old).1 else get_cluster m q))
        × ((remove_cluster m c).0 ≡ (removed old).0)
        × (get_cluster (remove_cluster m c).1 q
            ≡ (if c == q then (removed old).1 else get_cluster m q))
  unfolding create_cluster swap_protocol get_cluster
  get_cluster-changes m c q protocol =
      let p = chosen_protocol protocol in
      let (e1, g1) = create_chosen_lem p (at m.clusters c) m c q refl in
      let (e2, g2) = swap_chosen_lem p (at m.clusters c) m c q refl in
      let (e3, g3) = remove_cluster_lem m c q in (e1, g1, e2, g2, e3, g3)
