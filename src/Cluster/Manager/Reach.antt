-- ===== src/Cluster/Manager/Reach.antt =====
-- The states that the manager's operations lead to, and what holds in all of them.
use faultlab.Prelude.{
  ◌≢◌, ◌∙◌, inl, inr, refl, ap, sym, ℕ, String, Bool, Option, none, some, ℤ, at, Option-cases,
}
use mathlib.Core.Path.{subst}
use mathlib.Core.Option.{some-injective}
use faultlab.Cluster.{FaultState, NodeActionCapabilities, Cluster}
use faultlab.Cluster.Manager.{
  Manager, create_cluster, remove_cluster, swap_protocol, register_node, remove_node, heartbeat,
  set_node_capabilities, set_fault_params, set_node_session, cleanup, new_manager,
}
use faultlab.Cluster.Manager.Cleanup.{
  at-cleanup_clusters, cleanup_nodes-IsMap, at-cleaned, cleaned, remaining-id,
}
use faultlab.Cluster.Manager.Invariant.{
  IsCluster, IsRegistry, change_node-IsRegistry, create_cluster-IsRegistry,
  swap_protocol-IsRegistry, remove_cluster-IsRegistry, register_node-IsRegistry,
}

-- One operation of the manager. Failed operations count.
pub data Step {Float : Type 0} (zero_rate : Float) (m : Manager Float)
    : Manager Float → Type 0 where
  creating : (c protocol : String) → Step zero_rate m (create_cluster m c protocol).1
  removing : (c : String) → Step zero_rate m (remove_cluster m c).1
  swapping : (c protocol : String) → Step zero_rate m (swap_protocol m c protocol).1
  registering :
      (c n address : String) (port : ℤ) (now : ℕ)
      → Step zero_rate m (register_node zero_rate m c n address port now).0
  leaving : (c n : String) → Step zero_rate m (remove_node m c n).1
  beating : (c n : String) (now : ℕ) → Step zero_rate m (heartbeat m c n now).1
  reporting :
      (c n key : String) (epoch : ℕ) (actions : NodeActionCapabilities) (reported_at : ℤ)
      → Step zero_rate m (set_node_capabilities m c n key epoch actions reported_at).1
  injecting :
      (c n : String) (params : FaultState Float)
      → Step zero_rate m (set_fault_params m c n params).1
  connecting : (given : Bool) → Step zero_rate m (set_node_session m given)
  cleaning : (timeout : ℕ) (now : String → String → ℕ) → Step zero_rate m (cleanup timeout now m)

-- The states of a manager since NewManager.
pub data Reachable {Float : Type 0} (zero_rate : Float) : Manager Float → Type 0 where
  created : (session : Bool) → Reachable zero_rate (new_manager session)
  later :
      {m m' : Manager Float} → Reachable zero_rate m → Step zero_rate m m' → Reachable zero_rate m'

module _ {Float : Type 0} where
  none-some : (k : Cluster Float) → ◌≢◌ {A = Option (Cluster Float)} none (some k)
  none-some k e = absurd (cc)

  cleaned-IsCluster :
      (timeout : ℕ) (now : String → String → ℕ) (c : String) (k : Cluster Float)
      → IsCluster c k
      → IsCluster c (cleaned timeout now c k)
  cleaned-IsCluster timeout now c k (e, p, im, ids) = (
    e,
    p,
    cleanup_nodes-IsMap timeout (now c) k.nodes k.nodes im,
    λ n x found.
        let (y, had, same) =
          remaining-id timeout (now c n) (at k.nodes n) x
            (sym (at-cleaned timeout now c k n im) ∙ found) in
        same ∙ ids n y had,
  )

  cleanup-IsRegistry :
      (timeout : ℕ) (now : String → String → ℕ) (m : Manager Float)
      → IsRegistry m
      → IsRegistry (cleanup timeout now m)
  unfolding cleanup
  cleanup-IsRegistry timeout now m h c k e = elim (Option-cases (at m.clusters c)) [
    | inl missing ↦
        absurd
          (none-some k (sym (at-cleanup_clusters timeout now m.clusters c ∙ rw missing refl) ∙ e))
    | inr (j, found) ↦
        subst (λ x. IsCluster c x)
          (some-injective _ _
            (sym (at-cleanup_clusters timeout now m.clusters c ∙ rw found refl) ∙ e))
          (cleaned-IsCluster timeout now c j (h c j found))
  ]

  new_manager-IsRegistry : (session : Bool) → IsRegistry {Float = Float} (new_manager session)
  unfolding new_manager at
  new_manager-IsRegistry session c k e = absurd (cc)

  Step-IsRegistry :
      (zero_rate : Float) {m m' : Manager Float}
      → Step zero_rate m m'
      → IsRegistry m
      → IsRegistry m'
  unfolding remove_node heartbeat set_node_capabilities set_fault_params set_node_session
  Step-IsRegistry zero_rate {m = m} (creating c protocol) h =
      create_cluster-IsRegistry m c protocol h
  Step-IsRegistry zero_rate {m = m} (removing c) h = remove_cluster-IsRegistry m c h
  Step-IsRegistry zero_rate {m = m} (swapping c protocol) h =
      swap_protocol-IsRegistry m c protocol h
  Step-IsRegistry zero_rate {m = m} (registering c n address port now) h =
      register_node-IsRegistry zero_rate m c n address port now h
  Step-IsRegistry zero_rate {m = m} (leaving c n) h =
      change_node-IsRegistry m c n _ (λ x y i e. absurd (cc)) h
  Step-IsRegistry zero_rate {m = m} (beating c n now) h =
      change_node-IsRegistry m c n _ (λ x y i e. sym (ap (λ z. z.id) (some-injective _ _ e)) ∙ i) h
  Step-IsRegistry zero_rate {m = m} (reporting c n key epoch actions reported_at) h =
      change_node-IsRegistry m c n _ (λ x y i e. sym (ap (λ z. z.id) (some-injective _ _ e)) ∙ i) h
  Step-IsRegistry zero_rate {m = m} (injecting c n params) h =
      change_node-IsRegistry m c n _ (λ x y i e. sym (ap (λ z. z.id) (some-injective _ _ e)) ∙ i) h
  Step-IsRegistry zero_rate {m = m} (connecting given) h = h
  Step-IsRegistry zero_rate {m = m} (cleaning timeout now) h = cleanup-IsRegistry timeout now m h

  pub Reachable-IsRegistry :
      (zero_rate : Float) (m : Manager Float) → Reachable zero_rate m → IsRegistry m
  Reachable-IsRegistry zero_rate _ (created session) = new_manager-IsRegistry session
  Reachable-IsRegistry zero_rate _ (later {m = m} r s) =
      Step-IsRegistry zero_rate s (Reachable-IsRegistry zero_rate m r)
