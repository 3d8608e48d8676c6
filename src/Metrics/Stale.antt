-- ===== src/Metrics/Stale.antt =====
-- The area under the divergence is the time that the nodes together were stale.
use faultlab.Prelude.{
  ℕ, ◌+◌, ◌-◌, ◌*◌, ◌%◌, ◌≡◌, refl, ap, String, none, some, List, [], ◌∷◌, if◌then◌else◌, GoMap, at,
  insert, length, Bool-cases, inl, inr, arith, sort_stable,
}
use faultlab.Metrics.{
  NodeState, Snapshot, Result, state_eq, most_common_state, int64_size, add_stale, add_stale_nodes,
  account, observe, compute_loop, is_earlier, empty_result, finish, compute,
}
use faultlab.Metrics.Mode.{occurrences, most_common_state-IsTop}
use faultlab.Metrics.Earliest.{occurrences-le-length}

abbrev pub total : GoMap ℕ → ℕ
total [] = 0
total ((id, n) ∷ m) = n + total m

abbrev held : GoMap ℕ → String → ℕ
held m id = elim (at m id) [ none ↦ 0 | some n ↦ n ]

total-insert : (m : GoMap ℕ) (id : String) (w : ℕ) → total (insert m id w) + held m id ≡ total m + w
unfolding insert at
total-insert [] id w = omega arith
total-insert ((j, n) ∷ m) id w = ground (arith, total-insert m id w)

total-add_stale :
    (m : GoMap ℕ) (id : String) (delta : ℕ)
    → total (add_stale m id delta) % int64_size ≡ (total m + delta) % int64_size
unfolding add_stale
total-add_stale m id delta = omega (arith, total-insert m id ((held m id + delta) % int64_size))

-- The nodes that are not in the state.
abbrev others : GoMap NodeState → NodeState → ℕ
others [] s = 0
others ((id, t) ∷ nodes) s = (if state_eq t s then 0 else 1) + others nodes s

others_lem :
    (nodes : GoMap NodeState) (s : NodeState) → others nodes s ≡ length nodes - occurrences nodes s
others_lem [] s = omega arith
others_lem ((id, t) ∷ nodes) s = ground (arith, others_lem nodes s, occurrences-le-length nodes s)

total-add_stale_nodes :
    (mode : NodeState) (delta : ℕ) (nodes : GoMap NodeState) (stale : GoMap ℕ)
    → total (add_stale_nodes mode delta nodes stale) % int64_size
      ≡ (total stale + others nodes mode * delta) % int64_size
unfolding add_stale_nodes
total-add_stale_nodes mode delta [] stale = omega arith
total-add_stale_nodes mode delta ((id, s) ∷ nodes) stale = elim (Bool-cases (state_eq s mode)) [
  | inl e ↦ rw e (omega (arith, total-add_stale_nodes mode delta nodes stale))
  | inr e ↦ rw e (
      omega (
        arith,
        total-add_stale_nodes mode delta nodes (add_stale stale id delta),
        total-add_stale stale id delta,
      ))
]

account-Balanced :
    (s : Snapshot) (ss : List Snapshot) (r : Result)
    → total r.stale_duration_per_node % int64_size ≡ r.area_under_divergence
    → total (account s ss r).stale_duration_per_node % int64_size
      ≡ (account s ss r).area_under_divergence
unfolding account
account-Balanced s [] r h = h
account-Balanced s (next ∷ ss) r h =
    let (mode, count) = most_common_state s.nodes in
    let delta = next.time - s.time in
    let e : others s.nodes (most_common_state s.nodes).0
        ≡ length s.nodes - (most_common_state s.nodes).1 =
      omega (
        arith,
        others_lem s.nodes (most_common_state s.nodes).0,
        (most_common_state-IsTop s.nodes).1,
      ) in
    omega (
      arith,
      ap (λ (k : ℕ). k * (next.time - s.time)) e,
      total-add_stale_nodes (most_common_state s.nodes).0 (next.time - s.time) s.nodes
          r.stale_duration_per_node,
    )

compute_loop-Balanced :
    (ss : List Snapshot) (r : Result)
    → total r.stale_duration_per_node % int64_size ≡ r.area_under_divergence
    → total (compute_loop ss r).stale_duration_per_node % int64_size
      ≡ (compute_loop ss r).area_under_divergence
unfolding compute_loop observe
compute_loop-Balanced [] r h = h
compute_loop-Balanced (s ∷ ss) r h =
    compute_loop-Balanced ss (account s ss (observe s r)) (account-Balanced s ss (observe s r) h)

-- AreaUnderDivergence is the sum of StaleDurationPerNode over all nodes, on int64, where sums wrap
-- round.
pub stale-area :
    (snapshots : List Snapshot)
    → total (compute snapshots).stale_duration_per_node % int64_size
      ≡ (compute snapshots).area_under_divergence
unfolding compute finish
stale-area [] = refl
stale-area (s ∷ ss) = compute_loop-Balanced (sort_stable is_earlier (s ∷ ss)) empty_result refl
