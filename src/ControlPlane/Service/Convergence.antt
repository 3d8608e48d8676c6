-- ===== src/ControlPlane/Service/Convergence.antt =====
-- What IsClusterConverged means.
use faultlab.Prelude.{
  ◌≡◌, ◌↔◌, refl, ◌=ℕ=◌, String, Bool, true, false, Option, none, some, List, [], ◌∷◌, All, length,
  ℤ, if◌then◌else◌, arith,
}
use faultlab.Cluster.{Node}
use faultlab.Cluster.Manager.{Manager, get_nodes}
use faultlab.Metrics.{NodeState}
use faultlab.Metrics.Mode.{state_eq_iff}
use faultlab.Metrics.Sessions.{SessionSnapshot, get_session}
use faultlab.ControlPlane.Service.{
  Service, GetAnswer, next_verdict, key_verdict, keep_first, observed, check_nodes, check_keys,
  check_session, is_cluster_converged,
}

next_verdict-some :
    (first : NodeState) (o : Option NodeState) (rest : Option Bool)
    → (next_verdict (some first) o rest ≡ some true) ↔ ((o ≡ some first) × (rest ≡ some true))
unfolding next_verdict
next_verdict-some first none rest = (λ h. absurd (cc), λ h. absurd (cc (h.0)))
next_verdict-some first (some st) rest =
    (λ h. ground (arith, state_eq_iff st first), λ h. ground (arith, state_eq_iff st first))

next_verdict-none :
    (o : Option NodeState) (rest : Option Bool)
    → (next_verdict none o rest ≡ some true)
      ↔ ((st : NodeState) × (o ≡ some st) × (st.exists ≡ true) × (rest ≡ some true))
unfolding next_verdict
next_verdict-none none rest = (λ h. absurd (cc), λ h. absurd (cc (h.1)))
next_verdict-none (some st) rest =
    (λ h. (st, refl, ground arith, ground arith), λ h. let (x, e, y, r) = h in ground arith)

key_verdict_iff :
    (o rest : Option Bool)
    → (key_verdict o rest ≡ some true) ↔ ((o ≡ some true) × (rest ≡ some true))
unfolding key_verdict
key_verdict_iff none rest = (λ h. absurd (cc), λ h. absurd (cc (h.0)))
key_verdict_iff (some true) rest = (λ h. (refl, h), λ h. h.1)
key_verdict_iff (some false) rest = (λ h. absurd (cc), λ h. absurd (cc (h.0)))

module _ {Float : Type 0} (ask : String → ℤ → String → String → GetAnswer) where
  -- Every node answers the key with one state, which exists.
  abbrev pub AgreeOn : Manager Float → String → List (Node Float) → String → Type 0
  AgreeOn m c nodes key =
      (state : NodeState) × (state.exists ≡ true)
      × All (λ n. observed ask m c key n ≡ some state) nodes

  check_nodes-first :
      (m : Manager Float) (c key : String) (first : NodeState) (nodes : List (Node Float))
      → (check_nodes ask m c key (some first) nodes ≡ some true)
        ↔ All (λ n. observed ask m c key n ≡ some first) nodes
  unfolding check_nodes keep_first
  check_nodes-first m c key first [] = (λ h. tt, λ h. refl)
  check_nodes-first m c key first (n ∷ nodes) =
      let here =
        next_verdict-some first (observed ask m c key n)
          (check_nodes ask m c key (some first) nodes) in
      let later = check_nodes-first m c key first nodes in
      (λ h. let (e, r) = here.0 h in (e, later.0 r), λ h. let (e, r) = h in here.1 (e, later.1 r))

  check_nodes-AgreeOn :
      (m : Manager Float) (c key : String) (n : Node Float) (nodes : List (Node Float))
      → (check_nodes ask m c key none (n ∷ nodes) ≡ some true) ↔ AgreeOn m c (n ∷ nodes) key
  unfolding check_nodes keep_first
  check_nodes-AgreeOn m c key n nodes =
      let here =
        next_verdict-none (observed ask m c key n)
          (check_nodes ask m c key (observed ask m c key n) nodes) in
      (
        λ h.
            let (st, e, x, r) = here.0 h in
            (st, x, (e, (check_nodes-first m c key st nodes).0 (rw e at r))),
        λ h.
            let (st, x, er) = h in
            let (e, r) = er in here.1 (st, e, x, rw e ((check_nodes-first m c key st nodes).1 r)),
      )

  check_keys-AgreeOn :
      (m : Manager Float) (c : String) (n : Node Float) (nodes : List (Node Float))
      (keys : List String)
      → (check_keys ask m c (n ∷ nodes) keys ≡ some true) ↔ All (AgreeOn m c (n ∷ nodes)) keys
  unfolding check_keys
  check_keys-AgreeOn m c n nodes [] = (λ h. tt, λ h. refl)
  check_keys-AgreeOn m c n nodes (key ∷ keys) =
      let here = check_nodes-AgreeOn m c key n nodes in
      let later = check_keys-AgreeOn m c n nodes keys in
      (
        λ h.
            let (p, q) = (key_verdict_iff (check_nodes ask m c key none (n ∷ nodes)) _).0 h in
            (here.0 p, later.0 q),
        λ h.
            (key_verdict_iff (check_nodes ask m c key none (n ∷ nodes)) _).1
              (here.1 h.0, later.1 h.1),
      )

  check_session-AgreeOn :
      (m : Manager Float) (c : String) (session : SessionSnapshot) (n : Node Float)
      (nodes : List (Node Float))
      → (check_session ask m c (some session) (some (n ∷ nodes)) ≡ some true)
        ↔ All (AgreeOn m c (n ∷ nodes)) session.tracked_keys
  unfolding check_session
  check_session-AgreeOn m c session n nodes =
      let e : (length (n ∷ nodes) =ℕ= 0) ≡ false = ground arith in rw e (go session.tracked_keys)
    where
      go :
          (keys : List String)
          → ((if length keys =ℕ= 0 then some true else check_keys ask m c (n ∷ nodes) keys)
              ≡ some true)
            ↔ All (AgreeOn m c (n ∷ nodes)) keys
      go [] = (λ h. tt, λ h. refl)
      go (k ∷ keys) =
          let e : (length (k ∷ keys) =ℕ= 0) ≡ false = ground arith in
          rw e (check_keys-AgreeOn m c n nodes (k ∷ keys))

  -- For a cluster that has a session and at least one node, IsClusterConverged returns true exactly
  -- when for each key that the session tracks every node answers with one and the same state, and
  -- the key exists in it.
  pub is_cluster_converged_iff :
      (s : Service Float) (c : String) (session : SessionSnapshot) (n : Node Float)
      (nodes : List (Node Float))
      → get_session s.metrics c ≡ some session
      → get_nodes s.cluster c ≡ some (n ∷ nodes)
      → (is_cluster_converged ask s c ≡ some true)
        ↔ All (AgreeOn s.cluster c (n ∷ nodes)) session.tracked_keys
  unfolding is_cluster_converged
  is_cluster_converged_iff s c session n nodes e f =
      rw (e, f) (check_session-AgreeOn s.cluster c session n nodes)
