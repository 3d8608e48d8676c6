-- ===== src/Metrics/Divergence.antt =====
-- The divergence in the result of Compute: its course, its peak, the area under it and the share
-- of each node.
use mathlib.Core.Path.{subst}
use mathlib.Core.List.{append-nil}
use mathlib.Core.Option.{some-injective}
use faultlab.Prelude.{
  ℕ, ◌-◌, ◌≤◌, ltb, ◌≡◌, refl, sym, ap, ◌∙◌, ◌↔◌, ◌⊎◌, true, some, List, [], ◌∷◌, ◌++◌, map,
  if◌then◌else◌, All, Any, length, sort_stable, All-sort_stable, Any-sort_stable, Bool-cases, inl,
  inr, arith,
}
use faultlab.Metrics.{
  Snapshot, DivergencePoint, Result, most_common_state, account, observe, compute_loop, last?,
  final_test, is_earlier, empty_result, finish, compute,
}
use faultlab.Metrics.Earliest.{Agreed, converged_iff}

-- How many nodes do not have the most common state.
abbrev pub divergence_of : Snapshot → ℕ
divergence_of s = length s.nodes - (most_common_state s.nodes).1

abbrev pub point_of : Snapshot → DivergencePoint
point_of s = record { time = s.time; divergence = divergence_of s }

-- `peak` is the largest divergence, or 0 where there is none.
abbrev pub IsPeak : List Snapshot → ℕ → Type 0
IsPeak ss peak =
    All (λ s. divergence_of s ≤ peak) ss × ((peak ≡ 0) ⊎ Any (λ s. divergence_of s ≡ peak) ss)

account_divergence :
    (s : Snapshot) (ss : List Snapshot) (r : Result)
    → ((account s ss r).divergence_over_time ≡ r.divergence_over_time)
      × ((account s ss r).peak_divergence ≡ r.peak_divergence)
unfolding account
account_divergence s [] r = (refl, refl)
account_divergence s (next ∷ ss) r = (refl, refl)

append_one {ℓ} :
    {A : Type ℓ} (xs : List A) (y : A) (zs : List A) → (xs ++ y ∷ []) ++ zs ≡ xs ++ y ∷ zs
append_one [] y zs = refl
append_one (x ∷ xs) y zs = ap (λ l. x ∷ l) (append_one xs y zs)

compute_loop-points :
    (ss : List Snapshot) (r : Result)
    → (compute_loop ss r).divergence_over_time ≡ r.divergence_over_time ++ map point_of ss
unfolding compute_loop observe
compute_loop-points [] r = sym (append-nil r.divergence_over_time)
compute_loop-points (s ∷ ss) r =
    compute_loop-points ss (account s ss (observe s r))
    ∙ (ap (λ l. l ++ map point_of ss) (account_divergence s ss (observe s r)).0
        ∙ append_one r.divergence_over_time (point_of s) (map point_of ss))

-- The peak of the rest, over one that was found before.
abbrev IsPeakFrom : ℕ → List Snapshot → ℕ → Type 0
IsPeakFrom from ss peak =
    (from ≤ peak)
    × All (λ s. divergence_of s ≤ peak) ss
    × ((peak ≡ from) ⊎ Any (λ s. divergence_of s ≡ peak) ss)

IsPeakFrom-cons :
    (from : ℕ) (s : Snapshot) (ss : List Snapshot) (peak : ℕ)
    → IsPeakFrom (if ltb from (divergence_of s) then divergence_of s else from) ss peak
    → IsPeakFrom from (s ∷ ss) peak
IsPeakFrom-cons from s ss peak (above, all, some_one) = (
  ground arith,
  (ground arith, all),
  elim some_one [
    | inl e ↦ elim (Bool-cases (ltb from (divergence_of s))) [
      | inl b ↦ inr (inl (ground arith))
      | inr b ↦ inl (ground arith)
    ]
    | inr found ↦ inr (inr found)
  ],
)

compute_loop-IsPeakFrom :
    (ss : List Snapshot) (r : Result)
    → IsPeakFrom r.peak_divergence ss (compute_loop ss r).peak_divergence
unfolding compute_loop observe
compute_loop-IsPeakFrom [] r = (omega arith, tt, inl refl)
compute_loop-IsPeakFrom (s ∷ ss) r = IsPeakFrom-cons r.peak_divergence s ss _ (
    subst (λ n. IsPeakFrom n ss (compute_loop (s ∷ ss) r).peak_divergence)
      (account_divergence s ss (observe s r)).1
      (compute_loop-IsPeakFrom ss (account s ss (observe s r))))

-- DivergenceOverTime has one point for each snapshot, in the order of time, with the number of
-- nodes that are not in the most common state. PeakDivergence is the largest of these numbers, and
-- 0 where there is none.
pub compute-IsPeak :
    (snapshots : List Snapshot)
    → ((compute snapshots).divergence_over_time ≡ map point_of (sort_stable is_earlier snapshots))
      × IsPeak snapshots (compute snapshots).peak_divergence
unfolding compute finish sort_stable
compute-IsPeak [] = (refl, (tt, inl refl))
compute-IsPeak (s ∷ ss) =
    let ordered = sort_stable is_earlier (s ∷ ss) in
    let (above, all, some_one) = compute_loop-IsPeakFrom ordered empty_result in
    (
      compute_loop-points ordered empty_result,
      (
        All-sort_stable is_earlier _ (s ∷ ss) all,
        elim some_one [
          | inl e ↦ inl e
          | inr found ↦ inr (Any-sort_stable is_earlier _ (s ∷ ss) found)
        ],
      ),
    )

final_of :
    (ss : List Snapshot)
    → (final_test (last? (map point_of ss)) (last? ss) ≡ true)
      ↔ ((s : Snapshot) × (last? ss ≡ some s) × Agreed s.nodes)
unfolding final_test last?
final_of [] = (λ h. absurd (cc), λ h. absurd (cc (h.1)))
final_of (x ∷ []) = (
  λ h. (x, refl, (converged_iff x).0 h),
  λ h.
      let (s, e, agreed) = h in
      (converged_iff x).1
        (subst (λ (z : Snapshot). Agreed z.nodes) (sym (some-injective _ _ e)) agreed),
)
final_of (x ∷ y ∷ ys) = final_of (y ∷ ys)

-- FinalConsistent is true exactly when there is a snapshot and in the last one, in the order of
-- time, there is a node and all nodes have one state, which exists.
pub final_consistent_iff :
    (snapshots : List Snapshot)
    → ((compute snapshots).final_consistent ≡ true)
      ↔ ((s : Snapshot) × (last? (sort_stable is_earlier snapshots) ≡ some s) × Agreed s.nodes)
unfolding compute finish
final_consistent_iff [] = unfold sort_stable last? in (λ h. absurd (cc), λ h. absurd (cc (h.1)))
final_consistent_iff (s ∷ ss) =
    let ordered = sort_stable is_earlier (s ∷ ss) in
    subst
      (λ (l : List DivergencePoint).
        (final_test (last? l) (last? ordered) ≡ true)
        ↔ ((s : Snapshot) × (last? ordered ≡ some s) × Agreed s.nodes))
      (sym (compute_loop-points ordered empty_result)) (final_of ordered)
