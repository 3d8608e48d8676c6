-- ===== src/Experiment.antt =====
-- internal/experiment/experiment.go: the declared scenarios, Normalize and Validate. Reading the
-- YAML file is left out. An error is its kind.
pub mod Compile
pub mod Commands
pub mod Order
use faultlab.Prelude.{
  ltb, ◌=ℕ=◌, String, Bool, true, false, not, ◌&&◌, ◌||◌, Option, none, some, List, [], ◌∷◌, length,
  if◌then◌else◌, ℤ, pos, ltb_ℤ, ◌==◌, contains, trim_space, to_lower, cut_prefix, sort_stable,
}

pub record ClusterMember : Type 0 where
  pub id : String
  pub port : ℤ
  pub host : String

pub record ClusterConfig : Type 0 where
  pub id : String
  pub members : List ClusterMember

pub record TimelineStep : Type 0 where
  pub at : ℤ
  pub action : String
  pub groups : List (List String)
  pub key : String
  pub value : String
  pub target : String

pub record Experiment : Type 0 where
  pub name : String
  pub cluster : ClusterConfig
  pub timeline : List TimelineStep

pub data ExperimentError : Type 0 where
  name_required cluster_id_required member_id_required port_not_positive member_duplicate
        members_required timeline_empty negative_time action_required two_groups_required
        group_empty node_id_empty key_required value_required target_required groups_required
        unknown_action target_invalid node_id_required node_unknown :
      ExperimentError

-- The first of two checks that fails.
unfoldable pub or_else : Option ExperimentError → Option ExperimentError → Option ExperimentError
or_else none second = second
or_else (some e) second = some e

unfoldable pub is_blank : String → Bool
is_blank s = trim_space s == ""

-- The error, unless the test fails.
unfoldable pub fails_if : Bool → ExperimentError → Option ExperimentError
fails_if test e = if test then some e else none

unfoldable pub has_prefix : String → String → Bool
has_prefix s prefix = elim (cut_prefix prefix s) [ none ↦ false | some _ ↦ true ]

unfoldable pub is_earlier_step : TimelineStep → TimelineStep → Bool
is_earlier_step a b = ltb_ℤ a.at b.at

-- Normalize
unfoldable pub normalize : Experiment → Experiment
normalize e = record e { timeline = sort_stable is_earlier_step e.timeline }

unfoldable pub check_members : List String → List ClusterMember → Option ExperimentError
check_members seen [] = none
check_members seen (member ∷ members) = or_else (fails_if (is_blank member.id) member_id_required) (
    or_else (fails_if (not (ltb_ℤ (pos 0) member.port)) port_not_positive) (
      or_else (fails_if (contains seen member.id) member_duplicate)
        (check_members (member.id ∷ seen) members)))

unfoldable pub check_group : List String → Option ExperimentError
check_group [] = none
check_group (node_id ∷ group) =
    or_else (fails_if (is_blank node_id) node_id_empty) (check_group group)

unfoldable pub check_groups : List (List String) → Option ExperimentError
check_groups [] = none
check_groups (group ∷ groups) =
    or_else (fails_if (length group =ℕ= 0) group_empty)
      (or_else (check_group group) (check_groups groups))

unfoldable pub check_write : TimelineStep → Option ExperimentError
check_write s = or_else (fails_if (is_blank s.key) key_required) (
    or_else (fails_if (is_blank s.value) value_required) (
      or_else (fails_if (is_blank s.target) target_required) (
        fails_if (has_prefix (to_lower (trim_space s.target)) "group" && length s.groups =ℕ= 0)
          groups_required)))

-- Validate of a step
unfoldable pub validate_step : TimelineStep → Option ExperimentError
validate_step s =
    let action = trim_space s.action in
    if action == "start_cluster" || action == "start_metrics_collection"
    then none
    else if action == "partition" || action == "heal_partition"
    then or_else (fails_if (ltb (length s.groups) 2) two_groups_required) (check_groups s.groups)
    else if action == "write"
    then check_write s
    else if action == "read_all"
    then fails_if (is_blank s.key) key_required
    else some unknown_action

unfoldable pub check_steps : List TimelineStep → Option ExperimentError
check_steps [] = none
check_steps (s ∷ steps) = or_else (fails_if (ltb_ℤ s.at (pos 0)) negative_time) (
    or_else (fails_if (is_blank s.action) action_required)
      (or_else (validate_step s) (check_steps steps)))

-- Validate; `none` where it succeeds
unfoldable pub validate : Experiment → Option ExperimentError
validate e = or_else (fails_if (is_blank e.name) name_required) (
    or_else (fails_if (is_blank e.cluster.id) cluster_id_required) (
      or_else
        (if ltb 0 (length e.cluster.members)
          then check_members [] e.cluster.members
          else some members_required)
        (or_else (fails_if (length e.timeline =ℕ= 0) timeline_empty) (check_steps e.timeline))))
