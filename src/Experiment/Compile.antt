-- ===== src/Experiment/Compile.antt =====
-- internal/experiment/command_parser.go: the commands that an experiment stands for.
use Prim.Native.String.{◌++◌}
use faultlab.Prelude.{
  ℕ, zero, suc, ltb, ◌=ℕ=◌, String, Bool, true, false, Option, none, some, List, [], ◌∷◌,
  ◌++◌ as append, map, length, get_elem?, ◌⊎◌, inl, inr, if◌then◌else◌, ℤ, pos, negsuc, ltb_ℤ, ◌==◌,
  trim_space, to_lower, atoi, decimal, print_int, join, cut_prefix,
}
use faultlab.Experiment.{
  ClusterMember, ClusterConfig, TimelineStep, Experiment, ExperimentError, two_groups_required,
  unknown_action, target_required, target_invalid, members_required, node_id_required, node_unknown,
  has_prefix, validate,
}

pub record CommandBatch : Type 0 where
  pub at : ℤ
  pub commands : List String

pub record CompileOptions : Type 0 where
  pub cluster_id : String
  pub control_plane_host : String
  pub control_plane_port : ℤ

abbrev pub Compiled : Type 0 → Type 0
Compiled A = ExperimentError ⊎ A

infixl 5 ◌>>=◌
abbrev pub ◌>>=◌ : {A B : Type 0} → Compiled A → (A → Compiled B) → Compiled B
inl e >>= f = inl e
inr a >>= f = f a

unfoldable pub is_member : List ClusterMember → String → Bool
is_member [] id = false
is_member (m ∷ members) id = if m.id == id then true else is_member members id

-- resolveGroupNodeID
unfoldable pub resolve_group_node_id : String → ClusterConfig → Compiled String
resolve_group_node_id node_id config =
    let id = trim_space node_id in
    if id == ""
    then inl node_id_required
    else if is_member config.members id
    then inr id
    else inl node_unknown

-- resolveMember, with the index from 1; `none` is its error
unfoldable pub resolve_member : ℕ → ClusterConfig → Option (String × ℤ × String)
resolve_member zero config = none
resolve_member (suc i) config = elim (get_elem? config.members i) [
  | none ↦ none
  | some m ↦
      let host = trim_space m.host in
      some (m.id, m.port, if trim_space host == "" then "localhost" else host)
]

unfoldable pub peer_text : Option (String × ℤ × String) → List String → List String
peer_text none rest = rest
peer_text (some (id, port, host)) rest = (id ++ (":" ++ print_int port)) ∷ rest

-- The loop of buildPeerList, from index `i` on over the members that are left.
unfoldable pub peers_from : ℕ → ℕ → List ClusterMember → ClusterConfig → List String
peers_from i node_index [] config = []
peers_from i node_index (m ∷ left) config =
    let rest = peers_from (suc i) node_index left config in
    if i =ℕ= node_index then rest else peer_text (resolve_member i config) rest

-- buildPeerList
unfoldable pub build_peer_list : ℕ → ClusterConfig → String
unfolding peers_from
build_peer_list node_index config = join "," (peers_from 1 node_index config.members config)

unfoldable pub start_node_command :
    String → String → ℤ → String → Option (String × ℤ × String) → List String → List String
start_node_command cluster_id cp_host cp_port peers none rest = rest
start_node_command cluster_id cp_host cp_port peers (some (id, port, host)) rest =
    join " " (
      "start-node"
      ∷ id
      ∷ print_int port
      ∷ "--cluster-id"
      ∷ cluster_id
      ∷ "--host"
      ∷ host
      ∷ "--peers"
      ∷ peers
      ∷ "--cp-host"
      ∷ cp_host
      ∷ "--cp-port"
      ∷ print_int cp_port
      ∷ [])
    ∷ rest

-- The loop of compileStartClusterCommands.
unfoldable pub start_nodes_from :
    String → String → ℤ → ℕ → List ClusterMember → ClusterConfig → List String
start_nodes_from cluster_id cp_host cp_port i [] config = []
start_nodes_from cluster_id cp_host cp_port i (m ∷ left) config =
    start_node_command cluster_id cp_host cp_port (build_peer_list i config)
      (resolve_member i config) (start_nodes_from cluster_id cp_host cp_port (suc i) left config)

-- compileStartClusterCommands
unfoldable pub compile_start_cluster_commands : String → String → ℤ → ClusterConfig → List String
compile_start_cluster_commands cluster_id cp_host cp_port config =
    join " " ("cp" ∷ "new-cluster" ∷ cluster_id ∷ [])
    ∷ join " " (
        "log-lifecycle" ∷ cluster_id ∷ "SYSTEM" ∷ "NODE_JOIN" ∷ "\"Starting cluster members\"" ∷ [])
    ∷ start_nodes_from cluster_id cp_host cp_port 1 config.members config

unfoldable pub bool_text : Bool → String
bool_text true = "true"
bool_text false = "false"

unfoldable pub partition_command : String → Bool → String → String → String
partition_command cluster_id enabled left right =
    join " " ("fault-partition" ∷ cluster_id ∷ left ∷ right ∷ bool_text enabled ∷ [])

-- The loops of compilePartitionCommands, from the innermost out.
unfoldable pub pairs_with :
    String → Bool → ClusterConfig → String → List String → Compiled (List String)
pairs_with cluster_id enabled config left [] = inr []
pairs_with cluster_id enabled config left (right ∷ group) =
    resolve_group_node_id left config >>= λ l. resolve_group_node_id right config >>= λ r.
    pairs_with cluster_id enabled config left group >>= λ rest.
    inr (partition_command cluster_id enabled l r ∷ rest)

unfoldable pub pairs_between :
    String → Bool → ClusterConfig → List String → List String → Compiled (List String)
pairs_between cluster_id enabled config [] right = inr []
pairs_between cluster_id enabled config (l ∷ left) right =
    pairs_with cluster_id enabled config l right >>= λ first.
    pairs_between cluster_id enabled config left right >>= λ rest. inr (append first rest)

unfoldable pub pairs_after :
    String → Bool → ClusterConfig → List String → List (List String) → Compiled (List String)
pairs_after cluster_id enabled config left [] = inr []
pairs_after cluster_id enabled config left (right ∷ groups) =
    pairs_between cluster_id enabled config left right >>= λ first.
    pairs_after cluster_id enabled config left groups >>= λ rest. inr (append first rest)

unfoldable pub pairs_of :
    String → Bool → ClusterConfig → List (List String) → Compiled (List String)
pairs_of cluster_id enabled config [] = inr []
pairs_of cluster_id enabled config (group ∷ groups) =
    pairs_after cluster_id enabled config group groups >>= λ first.
    pairs_of cluster_id enabled config groups >>= λ rest. inr (append first rest)

-- compilePartitionCommands
unfoldable pub compile_partition_commands :
    String → List (List String) → Bool → ClusterConfig → Compiled (List String)
compile_partition_commands cluster_id groups enabled config =
    if ltb (length groups) 2
    then inl two_groups_required
    else pairs_of cluster_id enabled config groups

-- parseGroupTarget; `none` is its error
unfoldable pub parse_group_target : String → Option ℤ
parse_group_target target = elim (cut_prefix "group" (to_lower (trim_space target))) [
  | none ↦ none
  | some value ↦ atoi value
]

unfoldable pub first_of_group : Option (List String) → ClusterConfig → Compiled String
first_of_group none config = inl target_invalid
first_of_group (some []) config = inl target_invalid
first_of_group (some (node_id ∷ group)) config = resolve_group_node_id node_id config

unfoldable pub group_at : List (List String) → Option ℤ → Option (List String)
group_at groups none = none
group_at groups (some (negsuc _)) = none
group_at groups (some (pos zero)) = none
group_at groups (some (pos (suc i))) = get_elem? groups i

-- resolveTargetGroupLeader
unfoldable pub resolve_target_group_leader :
    String → List (List String) → ClusterConfig → Compiled String
resolve_target_group_leader target groups config =
    first_of_group (group_at groups (parse_group_target target)) config

-- resolveWriteTargets
unfoldable pub resolve_write_targets :
    String → List (List String) → ClusterConfig → Compiled (List String)
resolve_write_targets target groups config =
    let trimmed = trim_space target in
    let lower = to_lower trimmed in
    if trimmed == ""
    then inl target_required
    else if lower == "all"
    then (if length config.members =ℕ= 0
        then inl members_required
        else inr (map (λ m. m.id) config.members))
    else if has_prefix lower "group"
    then (resolve_target_group_leader trimmed groups config >>= λ id. inr (id ∷ []))
    else resolve_group_node_id trimmed config >>= λ id. inr (id ∷ [])

unfoldable pub lifecycle_command : String → String → String → String
lifecycle_command cluster_id event_type details =
    join " " ("log-lifecycle" ∷ cluster_id ∷ "SYSTEM" ∷ event_type ∷ details ∷ [])

unfoldable pub kv_put_command : String → TimelineStep → String → String
kv_put_command cluster_id s node_id =
    join " " ("kv-put" ∷ cluster_id ∷ node_id ∷ s.key ∷ s.value ∷ [])

unfoldable pub kv_get_command : String → TimelineStep → ClusterMember → String
kv_get_command cluster_id s m = join " " ("kv-get" ∷ cluster_id ∷ m.id ∷ s.key ∷ [])

-- compileCommands
unfoldable pub compile_commands :
    TimelineStep → String → String → ℤ → ClusterConfig → Compiled (List String)
compile_commands s cluster_id cp_host cp_port config =
    let action = trim_space s.action in
    if action == "start_cluster"
    then inr (compile_start_cluster_commands cluster_id cp_host cp_port config)
    else if action == "start_metrics_collection"
    then inr (join " " ("metrics-start" ∷ cluster_id ∷ []) ∷ [])
    else if action == "partition"
    then (compile_partition_commands cluster_id s.groups true config >>= λ cmds. inr (
        lifecycle_command cluster_id "PARTITION"
          ("\"Splitting cluster into " ++ (decimal (length s.groups) ++ " partitions\""))
        ∷ cmds))
    else if action == "heal_partition"
    then (compile_partition_commands cluster_id s.groups false config >>= λ cmds.
        inr (lifecycle_command cluster_id "HEAL" "\"Healing all network partitions\"" ∷ cmds))
    else if action == "write"
    then (resolve_write_targets s.target s.groups config >>= λ node_ids.
        inr (map (kv_put_command cluster_id s) node_ids))
    else if action == "read_all"
    then inr (map (kv_get_command cluster_id s) config.members)
    else inl unknown_action

-- The loop of Compile.
unfoldable pub compile_steps :
    String → String → ℤ → ClusterConfig → List TimelineStep → Compiled (List CommandBatch)
compile_steps cluster_id cp_host cp_port config [] = inr []
compile_steps cluster_id cp_host cp_port config (s ∷ steps) =
    compile_commands s cluster_id cp_host cp_port config >>= λ commands.
    compile_steps cluster_id cp_host cp_port config steps >>= λ rest.
    inr (record { at = s.at; commands = commands } ∷ rest)

unfoldable pub chosen_cluster_id : Experiment → String → String
chosen_cluster_id e given =
    let first = trim_space given in
    let second = trim_space e.cluster.id in
    if first == "" then (if second == "" then e.name else second) else first

unfoldable pub unless_invalid :
    Option ExperimentError → Compiled (List CommandBatch) → Compiled (List CommandBatch)
unless_invalid none result = result
unless_invalid (some e) result = inl e

-- Compile
unfoldable pub compile : Experiment → CompileOptions → Compiled (List CommandBatch)
unfolding unless_invalid
compile e opts =
    let host = trim_space opts.control_plane_host in
    unless_invalid (validate e) (
      compile_steps (chosen_cluster_id e opts.cluster_id) (if host == "" then "localhost" else host)
        (if ltb_ℤ (pos 0) opts.control_plane_port then opts.control_plane_port else pos 9091)
        e.cluster e.timeline)
