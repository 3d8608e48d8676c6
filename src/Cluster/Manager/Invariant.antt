-- ===== src/Cluster/Manager/Invariant.antt =====
-- What holds of the registry in every state that the manager's operations lead to.
use faultlab.Prelude.{
  ◌≡◌, ◌⊎◌, ◌∙◌, inl, inr, refl, ap, sym, ℕ, String, Option, none, some, [], arith, if◌then◌else◌,
  ℤ, GoMap, at, insert, delete, at-insert, at-delete, IsMap, insert-IsMap, delete-IsMap, ◌==◌,
  eq_iff, Option-cases, Bool-cases, trim_space, to_lower,
}
use mathlib.Core.Path.{subst}
use mathlib.Core.Option.{some-injective}
use faultlab.Cluster.{Node, Cluster}
use faultlab.Cluster.Manager.{
  Manager, create_cluster, remove_cluster, swap_protocol, register_node, change_node, with_node,
  create_chosen, swap_chosen, chosen_protocol, fresh_node, cluster_or_new,
}

chosen_protocol-named :
    (protocol q : String) → chosen_protocol protocol ≡ some q → (q ≡ "gossip") ⊎ (q ≡ "raft")
unfolding chosen_protocol
chosen_protocol-named protocol q e =
    let p = to_lower (trim_space protocol) in
    let r = if p == "" then "gossip" else p in ground (arith, eq_iff r "gossip", eq_iff r "raft")

module _ {Float : Type 0} where
  -- A cluster under its own id, which runs a supported protocol and keeps its nodes under theirs.
  abbrev pub IsCluster : String → Cluster Float → Type 0
  IsCluster c k =
      (k.id ≡ c)
      × ((k.protocol ≡ "gossip") ⊎ (k.protocol ≡ "raft"))
      × IsMap k.nodes
      × ((n : String) (x : Node Float) → at k.nodes n ≡ some x → x.id ≡ n)

  abbrev pub AreClusters : GoMap (Cluster Float) → Type 0
  AreClusters clusters = (c : String) (k : Cluster Float) → at clusters c ≡ some k → IsCluster c k

  abbrev pub IsRegistry : Manager Float → Type 0
  IsRegistry m = AreClusters m.clusters

  no_nodes : (n : String) (x : Node Float) → at {V = Node Float} [] n ≡ some x → x.id ≡ n
  unfolding at
  no_nodes n x e = absurd (cc)

  insert-AreClusters :
      (clusters : GoMap (Cluster Float)) (c : String) (k : Cluster Float)
      → AreClusters clusters
      → IsCluster c k
      → AreClusters (insert clusters c k)
  insert-AreClusters clusters c k h hk q j e = elim (Bool-cases (c == q)) [
    | inl same ↦
        (let e1 = sym (at-insert clusters c k q ∙ rw same refl) ∙ e in
          subst (λ x. IsCluster q x) (some-injective _ _ e1)
            (subst (λ s. IsCluster s k) ((eq_iff c q).0 same) hk))
    | inr other ↦ h q j (sym (at-insert clusters c k q ∙ rw other refl) ∙ e)
  ]

  delete-AreClusters :
      (clusters : GoMap (Cluster Float)) (c : String)
      → AreClusters clusters
      → AreClusters (delete clusters c)
  delete-AreClusters clusters c h q j e = elim (Bool-cases (c == q)) [
    | inl same ↦ absurd (ground (arith, at-delete clusters c q))
    | inr other ↦ h q j (sym (at-delete clusters c q ∙ rw other refl) ∙ e)
  ]

  -- An entry put under its own id, or deleted.
  with_node-IsCluster :
      (c : String) (k : Cluster Float) (n : String) (x : Option (Node Float))
      → IsCluster c k
      → ((y : Node Float) → x ≡ some y → y.id ≡ n)
      → IsCluster c (with_node k n x)
  unfolding with_node
  with_node-IsCluster c k n none (e, p, im, ids) h =
      (e, p, delete-IsMap k.nodes n im, λ q y found. ground (arith, at-delete k.nodes n q, ids q y))
  with_node-IsCluster c k n (some x) (e, p, im, ids) h = (
    e,
    p,
    insert-IsMap k.nodes n x im,
    λ q y found. ground (arith, at-insert k.nodes n x q, ids q y, h y, eq_iff n q),
  )

  pub change_node-IsRegistry :
      (m : Manager Float) (c n : String) (f : Node Float → Option (Node Float))
      → ((x y : Node Float) → x.id ≡ n → f x ≡ some y → y.id ≡ n)
      → IsRegistry m
      → IsRegistry (change_node (at m.clusters c) m c n f).1
  unfolding change_node
  change_node-IsRegistry m c n f keeps h = elim (Option-cases (at m.clusters c)) [
    | inl e ↦ rw e h
    | inr (k, e) ↦ elim (Option-cases (at k.nodes n)) [
      | inl e2 ↦ rw (e, change_node, e2) h
      | inr (x, e2) ↦
          (let (e3, p, im, ids) = h c k e in
            rw (e, change_node, e2)
              (insert-AreClusters m.clusters c (with_node k n (f x)) h (
                with_node-IsCluster c k n (f x) (e3, p, im, ids)
                  (λ y g. keeps x y (ids n x e2) g))))
    ]
  ]

  pub create_cluster-IsRegistry :
      (m : Manager Float) (c protocol : String)
      → IsRegistry m
      → IsRegistry (create_cluster m c protocol).1
  unfolding create_cluster create_chosen
  create_cluster-IsRegistry m c protocol h = elim (Option-cases (chosen_protocol protocol)) [
    | inl e ↦ rw e h
    | inr (q, e) ↦ elim (Option-cases (at m.clusters c)) [
      | inl e2 ↦
          rw (e, e2)
            (insert-AreClusters m.clusters c record { id = c; protocol = q; nodes = [] } h
              (refl, chosen_protocol-named protocol q e, tt, no_nodes))
      | inr (k, e2) ↦ rw (e, e2) h
    ]
  ]

  pub swap_protocol-IsRegistry :
      (m : Manager Float) (c protocol : String)
      → IsRegistry m
      → IsRegistry (swap_protocol m c protocol).1
  unfolding swap_protocol swap_chosen
  swap_protocol-IsRegistry m c protocol h = elim (Option-cases (chosen_protocol protocol)) [
    | inl e ↦ rw e h
    | inr (q, e) ↦ elim (Option-cases (at m.clusters c)) [
      | inl e2 ↦ rw (e, e2) h
      | inr (k, e2) ↦
          (let (i, p, im, ids) = h c k e2 in
            rw (e, e2)
              (insert-AreClusters m.clusters c (record k { protocol = q }) h
                (i, chosen_protocol-named protocol q e, im, ids)))
    ]
  ]

  pub remove_cluster-IsRegistry :
      (m : Manager Float) (c : String) → IsRegistry m → IsRegistry (remove_cluster m c).1
  unfolding remove_cluster
  remove_cluster-IsRegistry m c h = elim (Option-cases (at m.clusters c)) [
    | inl e ↦ rw (remove_cluster, e) h
    | inr (k, e) ↦ rw (remove_cluster, e) (delete-AreClusters m.clusters c h)
  ]

  cluster_or_new-IsCluster :
      (m : Manager Float) (c : String)
      → IsRegistry m
      → IsCluster c (cluster_or_new (at m.clusters c) c)
  unfolding cluster_or_new
  cluster_or_new-IsCluster m c h = elim (Option-cases (at m.clusters c)) [
    | inl e ↦ rw e (refl, inl refl, tt, no_nodes)
    | inr (k, e) ↦ rw e (h c k e)
  ]

  pub register_node-IsRegistry :
      (zero_rate : Float) (m : Manager Float) (c n address : String) (port : ℤ) (now : ℕ)
      → IsRegistry m
      → IsRegistry (register_node zero_rate m c n address port now).0
  unfolding register_node fresh_node with_node
  register_node-IsRegistry zero_rate m c n address port now h =
      let k = cluster_or_new (at m.clusters c) c in
      let fresh = fresh_node zero_rate n address port now in
      insert-AreClusters m.clusters c (with_node k n (some fresh)) h (
        with_node-IsCluster c k n (some fresh) (cluster_or_new-IsCluster m c h)
          (λ y e. ap (λ x. x.id) (sym (some-injective _ _ e))))
