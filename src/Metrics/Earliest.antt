-- ===== src/Metrics/Earliest.antt =====
-- The times in the result of Compute against the snapshots, in whatever order those come.
use mathlib.Core.Path.{subst}
use faultlab.Prelude.{
  ℕ, ◌+◌, ◌-◌, ◌*◌, ◌/◌, ◌≤◌, ◌<◌, ltb, leb, ◌=ℕ=◌, ◌≡◌, refl, sym, ap, ◌∙◌, ◌↔◌, ◌≢◌, String, Bool,
  true, false, ◌&&◌, Option, none, some, List, [], ◌∷◌, GoMap, All, Any, length, sort_stable,
  All-sort_stable, Any-sort_stable, IsSorted, sort_stable-IsSorted, Bool-cases, inl, inr, arith,
}
use faultlab.Metrics.{
  NodeState, Snapshot, Result, state_eq, all_exist, all_nodes_exist, most_common_state, account,
  observe, first_time, compute_loop, is_earlier, empty_result, finish, compute,
}
use faultlab.Metrics.Mode.{occurrences, state_eq_iff, most_common_state-IsTop}

-- All nodes have one state, which exists, and there is a node.
abbrev pub Agreed : GoMap NodeState → Type 0
Agreed nodes =
    (state : NodeState) × (state.exists ≡ true) × (nodes ≢ []) × All (λ e. e.1 ≡ state) nodes

-- More than half of the nodes have one state.
abbrev pub Quorum : GoMap NodeState → Type 0
Quorum nodes = (state : NodeState) × (length nodes < 2 * occurrences nodes state)

-- The time of the first snapshot with the property, if any has it.
abbrev pub IsEarliest : (Snapshot → Type 0) → List Snapshot → Option ℕ → Type 0
IsEarliest P snapshots none = All (λ s. ¬ P s) snapshots
IsEarliest P snapshots (some t) =
    Any (λ s. P s × (s.time ≡ t)) snapshots × All (λ s. P s → t ≤ s.time) snapshots

pub occurrences-le-length :
    (nodes : GoMap NodeState) (s : NodeState) → occurrences nodes s ≤ length nodes
occurrences-le-length [] s = omega arith
occurrences-le-length ((id, t) ∷ nodes) s = ground (arith, occurrences-le-length nodes s)

same_of_occurrences :
    (nodes : GoMap NodeState) (s : NodeState)
    → occurrences nodes s ≡ length nodes
    → All (λ e. e.1 ≡ s) nodes
same_of_occurrences [] s h = tt
same_of_occurrences ((id, t) ∷ nodes) s h = elim (Bool-cases (state_eq t s)) [
  | inl e ↦ (
    (state_eq_iff t s).0 e,
    same_of_occurrences nodes s (ground (arith, occurrences-le-length nodes s)),
  )
  | inr e ↦ absurd (ground (arith, occurrences-le-length nodes s))
]

occurrences_of_same :
    (nodes : GoMap NodeState) (s : NodeState)
    → All (λ e. e.1 ≡ s) nodes
    → occurrences nodes s ≡ length nodes
occurrences_of_same [] s h = refl
occurrences_of_same ((id, t) ∷ nodes) s (e, h) =
    ground (arith, state_eq_iff t s, occurrences_of_same nodes s h)

all_exist_same :
    (nodes : GoMap NodeState) (s : NodeState)
    → s.exists ≡ true
    → All (λ e. e.1 ≡ s) nodes
    → all_exist nodes ≡ true
unfolding all_exist
all_exist_same [] s x h = refl
all_exist_same ((id, t) ∷ nodes) s x (e, h) =
    let y : t.exists ≡ true = ap (λ u. u.exists) e ∙ x in rw y (all_exist_same nodes s x h)

-- The test of the code for convergence.
abbrev pub converged : Snapshot → Bool
converged s = (length s.nodes - (most_common_state s.nodes).1 =ℕ= 0) && all_nodes_exist s.nodes

-- The test of the code for a quorum.
abbrev pub has_quorum : Snapshot → Bool
has_quorum s =
    leb (length s.nodes / 2 + 1) (most_common_state s.nodes).1 && ltb 0 (length s.nodes / 2 + 1)

nodes-Agreed :
    (nodes : GoMap NodeState)
    → (length nodes - (most_common_state nodes).1 =ℕ= 0) ≡ true
    → all_nodes_exist nodes ≡ true
    → Agreed nodes
unfolding all_nodes_exist all_exist
nodes-Agreed [] h x = absurd (cc)
nodes-Agreed ((id, t) ∷ nodes) h x =
    let all = (id, t) ∷ nodes in
    let top = (most_common_state all).0 in
    let (bound, attained, least) = most_common_state-IsTop all in
    let (e, same) = same_of_occurrences all top (ground (arith, occurrences-le-length all top)) in
    (
      t,
      ground arith,
      λ q. absurd (cc),
      subst (λ z. All (λ (e : String × NodeState). e.1 ≡ z) all) (sym e) (e, same),
    )

all_nodes_exist_same :
    (nodes : GoMap NodeState) (s : NodeState)
    → s.exists ≡ true
    → nodes ≢ []
    → All (λ e. e.1 ≡ s) nodes
    → all_nodes_exist nodes ≡ true
unfolding all_nodes_exist
all_nodes_exist_same [] s x filled h = absurd (filled refl)
all_nodes_exist_same (e ∷ nodes) s x filled h = all_exist_same (e ∷ nodes) s x h

pub converged_iff : (s : Snapshot) → (converged s ≡ true) ↔ Agreed s.nodes
converged_iff s =
    let (bound, attained, least) = most_common_state-IsTop s.nodes in
    (
      λ h. nodes-Agreed s.nodes (ground arith) (ground arith),
      λ h.
          let (state, x, filled, same) = h in
          ground (
            arith,
            all_nodes_exist_same s.nodes state x filled same,
            occurrences_of_same s.nodes state same,
            bound state,
          ),
    )

pub has_quorum_iff : (s : Snapshot) → (has_quorum s ≡ true) ↔ Quorum s.nodes
has_quorum_iff s =
    let (bound, attained, least) = most_common_state-IsTop s.nodes in
    (
      λ h. ((most_common_state s.nodes).0, ground arith),
      λ q. let (state, many) = q in ground (arith, bound state),
    )

-- The loop's way to find the first time.
earliest : (Snapshot → Bool) → Option ℕ → List Snapshot → Option ℕ
earliest test o [] = o
earliest test o (s ∷ rest) = earliest test (first_time o (test s) s.time) rest

earliest-some :
    (test : Snapshot → Bool) (t : ℕ) (ss : List Snapshot) → earliest test (some t) ss ≡ some t
unfolding earliest first_time
earliest-some test t [] = refl
earliest-some test t (s ∷ rest) = earliest-some test t rest

module _ (test : Snapshot → Bool) (P : Snapshot → Type 0)
    (meaning : (s : Snapshot) → (test s ≡ true) ↔ P s) where
  not_before :
      (t : ℕ) (x : Snapshot) (ss : List Snapshot)
      → x.time ≡ t
      → All (λ y. is_earlier y x ≡ false) ss
      → All (λ s. P s → t ≤ s.time) ss
  unfolding is_earlier
  not_before t x [] e h = tt
  not_before t x (s ∷ ss) e (h, hs) = (λ p. ground arith, not_before t x ss e hs)

  earliest-IsEarliest :
      (ss : List Snapshot) → IsSorted is_earlier ss → IsEarliest P ss (earliest test none ss)
  unfolding earliest first_time
  earliest-IsEarliest [] h = tt
  earliest-IsEarliest (s ∷ ss) (h, hs) = elim (Bool-cases (test s)) [
    | inl e ↦
        rw (e, earliest-some test s.time ss)
          (inl ((meaning s).0 e, refl), (λ p. omega arith, not_before s.time s ss refl h))
    | inr e ↦ rw e (
        later (earliest test none ss) (earliest-IsEarliest ss hs)
          (λ p. absurd (cc ((meaning s).1 p))))
  ]
    where
      later : (o : Option ℕ) → IsEarliest P ss o → ¬ P s → IsEarliest P (s ∷ ss) o
      later none r q = (q, r)
      later (some t) (found, rest) q = (inr found, (λ p. absurd (q p), rest))

  times-IsSorted : (ss : List Snapshot) → IsSorted is_earlier (sort_stable is_earlier ss)
  unfolding is_earlier
  times-IsSorted =
      sort_stable-IsSorted is_earlier (λ x y h. ground arith) (λ x y z h k. ground arith)

  unsorted :
      (ss : List Snapshot) (o : Option ℕ)
      → IsEarliest P (sort_stable is_earlier ss) o
      → IsEarliest P ss o
  unsorted ss none h = All-sort_stable is_earlier (λ s. ¬ P s) ss h
  unsorted ss (some t) (found, rest) = (
    Any-sort_stable is_earlier (λ s. P s × (s.time ≡ t)) ss found,
    All-sort_stable is_earlier (λ s. P s → t ≤ s.time) ss rest,
  )

account_times :
    (s : Snapshot) (ss : List Snapshot) (r : Result)
    → ((account s ss r).convergence_time ≡ r.convergence_time)
      × ((account s ss r).first_agreement_time ≡ r.first_agreement_time)
unfolding account
account_times s [] r = (refl, refl)
account_times s (next ∷ ss) r = (refl, refl)

compute_loop_times :
    (ss : List Snapshot) (r : Result)
    → ((compute_loop ss r).convergence_time ≡ earliest converged r.convergence_time ss)
      × ((compute_loop ss r).first_agreement_time ≡ earliest has_quorum r.first_agreement_time ss)
unfolding compute_loop earliest observe
compute_loop_times [] r = (refl, refl)
compute_loop_times (s ∷ ss) r =
    let (c, f) = compute_loop_times ss (account s ss (observe s r)) in
    let (c', f') = account_times s ss (observe s r) in
    (c ∙ ap (λ o. earliest converged o ss) c', f ∙ ap (λ o. earliest has_quorum o ss) f')

-- ConvergenceTime is the earliest time of a snapshot in which there is a node and all nodes have
-- one state, which exists; it is nil where there is no such snapshot. FirstAgreementTime is the
-- earliest time of a snapshot in which more than half of the nodes have one state, or nil. Both
-- hold for the snapshots in any order.
pub compute-IsEarliest :
    (snapshots : List Snapshot)
    → IsEarliest (λ s. Agreed s.nodes) snapshots (compute snapshots).convergence_time
      × IsEarliest (λ s. Quorum s.nodes) snapshots (compute snapshots).first_agreement_time
unfolding compute finish
compute-IsEarliest [] = (tt, tt)
compute-IsEarliest (s ∷ ss) =
    let ordered = sort_stable is_earlier (s ∷ ss) in
    let (c, f) = compute_loop_times ordered empty_result in
    let reading =
      λ (test : Snapshot → Bool) (P : Snapshot → Type 0)
          (m : (s : Snapshot) → (test s ≡ true) ↔ P s).
        unsorted test P m (s ∷ ss) (earliest test none ordered)
          (earliest-IsEarliest test P m ordered (times-IsSorted test P m (s ∷ ss))) in
    (
      subst (λ o. IsEarliest (λ s. Agreed s.nodes) (s ∷ ss) o) (sym c)
          (reading converged (λ s. Agreed s.nodes) converged_iff),
      subst (λ o. IsEarliest (λ s. Quorum s.nodes) (s ∷ ss) o) (sym f)
          (reading has_quorum (λ s. Quorum s.nodes) has_quorum_iff),
    )
