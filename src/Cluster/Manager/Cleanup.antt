-- ===== src/Cluster/Manager/Cleanup.antt =====
-- What a round of Cleanup does to each node.
use faultlab.Prelude.{
  ◌≡◌, ◌∙◌, inl, inr, refl, ap, sym, ℕ, ◌-◌, ltb, String, Option, none, some, [], ◌∷◌, arith,
  if◌then◌else◌, GoMap, at, at-insert, at-delete, IsMap, insert-IsMap, delete-IsMap, ◌==◌, eq_iff,
  Option-cases, Bool-cases,
}
use faultlab.Cluster.{Node, Cluster}
use faultlab.Cluster.Manager.{
  Manager, get_node, cleanup, cleanup_node, cleanup_nodes, cleanup_clusters,
}

module _ {Float : Type 0} where
  -- What is left of a node: silent for longer than the time-out, it goes, unless a crash was
  -- injected, which its status then says.
  abbrev pub remains : ℕ → ℕ → Node Float → Option (Node Float)
  remains timeout now n =
      if ltb timeout (now - n.last_seen)
      then (if n.fault.crashed then some (record n { status = "crashed" }) else none)
      else some n

  abbrev remains_of : ℕ → ℕ → Option (Node Float) → Option (Node Float) → Option (Node Float)
  remains_of timeout now none old = old
  remains_of timeout now (some n) old =
      if ltb timeout (now - n.last_seen) then remains timeout now n else old

  at-cleanup_node :
      (timeout now : ℕ) (nodes : GoMap (Node Float)) (id : String) (n : Node Float) (q : String)
      → at (cleanup_node timeout now nodes id n) q
        ≡ (if id == q then remains_of timeout now (some n) (at nodes q) else at nodes q)
  unfolding cleanup_node
  at-cleanup_node timeout now nodes id n q = ground (
    arith,
    eq_iff id q,
    at-insert nodes id (record n { status = "crashed" }) q,
    at-delete nodes id q,
  )

  at-cleanup_nodes :
      (timeout : ℕ) (now : String → ℕ) (nodes rest : GoMap (Node Float)) (q : String)
      → IsMap rest
      → at (cleanup_nodes timeout now nodes rest) q
        ≡ remains_of timeout (now q) (at rest q) (at nodes q)
  unfolding cleanup_nodes at
  at-cleanup_nodes timeout now nodes [] q h = refl
  at-cleanup_nodes timeout now nodes ((id, n) ∷ rest) q h =
      let later = cleanup_node timeout (now id) nodes id n in
      let r = at-cleanup_nodes timeout now later rest q h.1 in
      let a = at-cleanup_node timeout (now id) nodes id n q in
      elim (Bool-cases (id == q)) [
        | inl e ↦
            (let p = (eq_iff id q).0 e in
              let gone = ap (at rest) (sym p) ∙ h.0 in
              r
              ∙ rw (gone, e, a, e)
                  (ap (λ t. remains_of timeout t (some n) (at nodes q)) (ap now p)))
        | inr e ↦ r ∙ rw (e, a, e) refl
      ]

  pub cleanup_nodes-IsMap :
      (timeout : ℕ) (now : String → ℕ) (nodes rest : GoMap (Node Float))
      → IsMap nodes
      → IsMap (cleanup_nodes timeout now nodes rest)
  unfolding cleanup_nodes cleanup_node
  cleanup_nodes-IsMap timeout now nodes [] h = h
  cleanup_nodes-IsMap timeout now nodes ((id, n) ∷ rest) h =
      cleanup_nodes-IsMap timeout now (cleanup_node timeout (now id) nodes id n) rest (
        ground (
          arith,
          insert-IsMap nodes id (record n { status = "crashed" }) h,
          delete-IsMap nodes id h,
        ))

  abbrev pub cleaned : ℕ → (String → String → ℕ) → String → Cluster Float → Cluster Float
  cleaned timeout now c k = record k { nodes = cleanup_nodes timeout (now c) k.nodes k.nodes }

  abbrev pub cleaned_at :
      ℕ → (String → String → ℕ) → String → Option (Cluster Float) → Option (Cluster Float)
  cleaned_at timeout now c none = none
  cleaned_at timeout now c (some k) = some (cleaned timeout now c k)

  pub at-cleanup_clusters :
      (timeout : ℕ) (now : String → String → ℕ) (clusters : GoMap (Cluster Float)) (c : String)
      → at (cleanup_clusters timeout now clusters) c ≡ cleaned_at timeout now c (at clusters c)
  unfolding cleanup_clusters at
  at-cleanup_clusters timeout now [] c = refl
  at-cleanup_clusters timeout now ((j, k) ∷ clusters) c = elim (Bool-cases (j == c)) [
    | inl e ↦ rw e (ap (λ s. some (cleaned timeout now s k)) ((eq_iff j c).0 e))
    | inr e ↦ rw e (at-cleanup_clusters timeout now clusters c)
  ]

  abbrev pub remaining : ℕ → ℕ → Option (Node Float) → Option (Node Float)
  remaining timeout now none = none
  remaining timeout now (some n) = remains timeout now n

  settled :
      (timeout now : ℕ) (x : Option (Node Float))
      → remains_of timeout now x x ≡ remaining timeout now x
  settled timeout now none = refl
  settled timeout now (some n) = ground arith

  pub at-cleaned :
      (timeout : ℕ) (now : String → String → ℕ) (c : String) (k : Cluster Float) (n : String)
      → IsMap k.nodes
      → at (cleaned timeout now c k).nodes n ≡ remaining timeout (now c n) (at k.nodes n)
  at-cleaned timeout now c k n h =
      at-cleanup_nodes timeout (now c) k.nodes k.nodes n h
      ∙ settled timeout (now c n) (at k.nodes n)

  pub remaining-id :
      (timeout now : ℕ) (o : Option (Node Float)) (x : Node Float)
      → remaining timeout now o ≡ some x
      → (y : Node Float) × (o ≡ some y) × (x.id ≡ y.id)
  remaining-id timeout now none x e = absurd (cc)
  remaining-id timeout now (some y) x e = (y, refl, ground arith)

  -- A round of Cleanup removes exactly the nodes that were silent for longer than the time-out and
  -- have no crash injected; a silent node with one stays, with the status crashed, and every other
  -- node stays as it was. (No key stands twice in a cluster's nodes.)
  pub get_node-cleanup :
      (timeout : ℕ) (now : String → String → ℕ) (m : Manager Float) (c n : String)
      → ((k : Cluster Float) → at m.clusters c ≡ some k → IsMap k.nodes)
      → get_node (cleanup timeout now m) c n ≡ remaining timeout (now c n) (get_node m c n)
  unfolding cleanup get_node
  get_node-cleanup timeout now m c n h = elim (Option-cases (at m.clusters c)) [
    | inl e ↦ rw (get_node, at-cleanup_clusters timeout now m.clusters c, e) refl
    | inr (k, e) ↦
        rw (get_node, at-cleanup_clusters timeout now m.clusters c, e)
          (at-cleaned timeout now c k n (h k e))
  ]
