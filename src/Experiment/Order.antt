-- ===== src/Experiment/Order.antt =====
-- What Compile makes of a whole experiment: the order of the batches, and the pairs of a partition.
use mathlib.Core.Path.{subst}
use faultlab.Prelude.{
  ◌≡◌, refl, ap, String, Bool, false, Option, none, some, List, [], ◌∷◌, ◌++◌, map, All,
  All-sort_stable, inl, inr, ℤ, pos, ltb_ℤ, sort_stable, IsSorted, sort_stable-IsSorted,
  Option-cases, arith,
}
use faultlab.Experiment.{
  ClusterConfig, TimelineStep, Experiment, ExperimentError, or_else, fails_if, check_steps,
  validate, normalize, is_earlier_step,
}
use faultlab.Experiment.Compile.{
  CommandBatch, CompileOptions, Compiled, ◌>>=◌, compile_commands, compile_steps, unless_invalid,
  compile, resolve_group_node_id, partition_command,
}

compile_steps-times :
    (c cp_host : String) (cp_port : ℤ) (config : ClusterConfig) (steps : List TimelineStep)
    (batches : List CommandBatch)
    → compile_steps c cp_host cp_port config steps ≡ inr batches
    → map (λ b. b.at) batches ≡ map (λ s. s.at) steps
unfolding compile_steps
compile_steps-times c h p config [] batches e = ground arith
compile_steps-times c h p config (s ∷ steps) batches e =
    go (compile_commands s c h p config) (compile_steps c h p config steps)
      (compile_steps-times c h p config steps) e
  where
    go :
        (o : Compiled (List String)) (r : Compiled (List CommandBatch))
        → ((rest : List CommandBatch) → r ≡ inr rest → map (λ b. b.at) rest ≡ map (λ s. s.at) steps)
        → (o >>= λ commands. r >>= λ rest. inr (record { at = s.at; commands = commands } ∷ rest))
          ≡ inr batches
        → map (λ b. b.at) batches ≡ s.at ∷ map (λ s. s.at) steps
    go (inl x) r q e = absurd (ground (arith))
    go (inr commands) (inl x) q e = absurd (ground (arith))
    go (inr commands) (inr rest) q e =
        let f : record { at = s.at; commands = commands } ∷ rest ≡ batches = cc in
        subst (λ l. map (λ b. b.at) l ≡ s.at ∷ map (λ s. s.at) steps) f
          (ap (λ l. s.at ∷ l) (q rest refl))

or_else-none : (a b : Option ExperimentError) → or_else a b ≡ none → (a ≡ none) × (b ≡ none)
unfolding or_else
or_else-none none b h = (refl, h)
or_else-none (some e) b h = absurd (ground (arith))

check_steps-times :
    (steps : List TimelineStep)
    → check_steps steps ≡ none
    → All (λ s. ltb_ℤ s.at (pos 0) ≡ false) steps
unfolding check_steps fails_if
check_steps-times [] h = tt
check_steps-times (s ∷ steps) h =
    let (a, rest) = or_else-none _ _ h in
    let (b, rest') = or_else-none _ _ rest in
    let (d, rest'') = or_else-none _ _ rest' in (ground arith, check_steps-times steps rest'')

validate-steps : (e : Experiment) → validate e ≡ none → check_steps e.timeline ≡ none
unfolding validate
validate-steps e h =
    let a = (or_else-none _ _ h).1 in
    let b = (or_else-none _ _ a).1 in let d = (or_else-none _ _ b).1 in (or_else-none _ _ d).1

compile-valid :
    (e : Experiment) (opts : CompileOptions) (batches : List CommandBatch)
    → compile e opts ≡ inr batches
    → (validate e ≡ none) × (map (λ b. b.at) batches ≡ map (λ s. s.at) e.timeline)
unfolding compile
compile-valid e opts batches h = elim (Option-cases (validate e)) [
  | inl v ↦
      (v, compile_steps-times _ _ _ e.cluster e.timeline batches (rw (v, unless_invalid) at h))
  | inr (x, v) ↦ absurd (ground (arith))
]

-- Where Compile succeeds on a normalised experiment, there is one batch for each step of the
-- timeline, at the step's time; the times never fall, and none is negative.
pub compile_order :
    (e : Experiment) (opts : CompileOptions) (batches : List CommandBatch)
    → compile (normalize e) opts ≡ inr batches
    → (map (λ b. b.at) batches ≡ map (λ s. s.at) (sort_stable is_earlier_step e.timeline))
      × IsSorted is_earlier_step (sort_stable is_earlier_step e.timeline)
      × All (λ s. ltb_ℤ s.at (pos 0) ≡ false) e.timeline
unfolding normalize is_earlier_step
compile_order e opts batches h =
    let (v, times) = compile-valid (normalize e) opts batches h in
    (
      times,
      sort_stable-IsSorted is_earlier_step (λ x y h. ground arith) (λ x y z h k. ground arith)
          e.timeline,
      All-sort_stable is_earlier_step (λ s. ltb_ℤ s.at (pos 0) ≡ false) e.timeline
          (check_steps-times (sort_stable is_earlier_step e.timeline)
            (validate-steps (normalize e) v)),
    )

-- The pairs of nodes that a partition separates: each of a group with each of a later group.
abbrev pub pairs : List String → List String → List (String × String)
pairs [] right = []
pairs (l ∷ left) right = map (λ r. (l, r)) right ++ pairs left right

abbrev pub later_pairs : List String → List (List String) → List (String × String)
later_pairs left [] = []
later_pairs left (right ∷ groups) = pairs left right ++ later_pairs left groups

abbrev pub cross_pairs : List (List String) → List (String × String)
cross_pairs [] = []
cross_pairs (group ∷ groups) = later_pairs group groups ++ cross_pairs groups

module _ (c : String) (enabled : Bool) (config : ClusterConfig) where
  abbrev pub command_of : String × String → String
  command_of p = partition_command c enabled p.0 p.1

  -- Every name stands for a member.
  abbrev pub Known : List String → Type 0
  Known = All (λ n. resolve_group_node_id n config ≡ inr n)
