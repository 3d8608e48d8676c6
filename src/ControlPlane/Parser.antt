-- ===== src/ControlPlane/Parser.antt =====
-- Parse of internal/controlplane/parser.go on the fields of a line. An error is its kind, not its
-- text; strconv.ParseFloat is an argument, with the float64 zero.
pub mod Laws
use faultlab.Prelude.{
  String, Bool, true, false, not, ◌&&◌, ◌||◌, Option, none, some, List, [], ◌∷◌, if◌then◌else◌, ◌⊎◌,
  inl, inr, ℤ, pos, ◌==◌, atoi, trim_space, join, split_on, trim_char, starts_with_char, fields,
}
use faultlab.ControlPlane.{
  Command, CommandType, new_command, cmd_create_cluster, cmd_start_node_process,
  cmd_stop_node_process, cmd_list_node_processes, cmd_add_node, cmd_remove_node, cmd_list_nodes,
  cmd_list_clusters, cmd_set_fault_params, cmd_crash_node, cmd_recover_node, cmd_set_drop_rate,
  cmd_set_delay, cmd_set_partition, cmd_kv_put, cmd_kv_get, cmd_set_cluster_protocol,
  cmd_run_hypothesis, cmd_kill_cluster, cmd_metrics_start, cmd_metrics_stop, cmd_metrics_watch_key,
  cmd_metrics_show, cmd_log_lifecycle_event, cmd_help,
}

pub data ParseError : Type 0 where
  empty_command usage invalid_value missing_value unknown_option unknown_command : ParseError

-- strconv.ParseBool
parse_bool : String → Option Bool
parse_bool s =
    if s == "1" || s == "t" || s == "T" || s == "TRUE" || s == "true" || s == "True"
    then some true
    else if s == "0" || s == "f" || s == "F" || s == "FALSE" || s == "false" || s == "False"
    then some false
    else none

-- --protocol in one of its three spellings
unfoldable pub is_protocol_flag : String → Bool
is_protocol_flag arg = arg == "--protocol" || arg == "-protocol" || arg == "-p"

-- The options of new-cluster, and the old position of the protocol right after the cluster's id.
new_cluster_options : Bool → String → List String → ParseError ⊎ String
unfolding is_protocol_flag
new_cluster_options first protocol [] = inr protocol
new_cluster_options first protocol (arg ∷ []) =
    if is_protocol_flag arg
    then inl usage
    else if first && not (starts_with_char b'-' arg)
    then inr arg
    else inl unknown_option
new_cluster_options first protocol (arg ∷ v ∷ rest) = elim (is_protocol_flag arg) [
  | true ↦ new_cluster_options false v rest
  | false ↦ elim (first && not (starts_with_char b'-' arg)) [
    | true ↦ new_cluster_options false arg (v ∷ rest)
    | false ↦ inl unknown_option
  ]
]

module _ {Float : Type 0} (zero_rate : Float) (parse_float : String → Option Float) where
  abbrev pub Parsed : Type 0
  Parsed = ParseError ⊎ Command Float

  -- An option of start-node with its value.
  set_option : Command Float → String → String → Parsed
  set_option cmd arg v =
      if arg == "--cluster-id"
      then inr (record cmd { cluster_id = v })
      else if arg == "--host"
      then inr (record cmd { host = v })
      else if arg == "--peers"
      then inr (record cmd { peers_csv = v })
      else if arg == "--cp-host"
      then inr (record cmd { cp_host = v })
      else if arg == "--cp-port"
      then (elim (atoi v) [ none ↦ inl invalid_value | some p ↦ inr (record cmd { cp_port = p }) ])
      else inl unknown_option

  unfoldable pub is_option : String → Bool
  is_option arg =
      arg == "--cluster-id"
      || arg == "--host"
      || arg == "--peers"
      || arg == "--cp-host"
      || arg == "--cp-port"

  pub start_options : Command Float → List String → Parsed
  unfolding set_option is_option
  start_options cmd [] = inr cmd
  start_options cmd (arg ∷ []) = if is_option arg then inl missing_value else inl unknown_option
  start_options cmd (arg ∷ v ∷ rest) = elim (set_option cmd arg v) [
    | inl e ↦ inl e
    | inr cmd' ↦ start_options cmd' rest
  ]

  start_node : List String → Parsed
  unfolding start_options
  start_node (id ∷ port ∷ rest) = elim (atoi port) [
    | none ↦ inl invalid_value
    | some p ↦
        start_options
          (record (new_command zero_rate cmd_start_node_process) {
            node_id = id;
            port = p;
            cluster_id = "default";
            host = "localhost";
          })
          rest
  ]
  start_node _ = inl usage

  new_cluster : List String → Parsed
  unfolding new_cluster_options
  new_cluster [] = inl usage
  new_cluster (id ∷ rest) = elim (new_cluster_options true "gossip" rest) [
    | inl e ↦ inl e
    | inr p ↦
        inr (record (new_command zero_rate cmd_create_cluster) { cluster_id = id; protocol = p })
  ]

  add_node : List String → Parsed
  add_node (c ∷ n ∷ h ∷ port ∷ rest) = elim (atoi port) [
    | none ↦ inl invalid_value
    | some p ↦ inr (record (new_command zero_rate cmd_add_node) {
      cluster_id = c;
      node_id = n;
      host = h;
      port = p;
    })
  ]
  add_node _ = inl usage

  partition_of : List String → List String
  partition_of [] = []
  partition_of (csv ∷ rest) = if trim_space csv == "" then [] else split_on b',' csv

  -- The three values of set-fault, as far as they parse.
  fault_of : String → String → Option Bool → Option Float → Option ℤ → List String → Parsed
  fault_of c n (some crashed) (some rate) (some delay) partition =
      inr (record (new_command zero_rate cmd_set_fault_params) {
        cluster_id = c;
        node_id = n;
        crashed = crashed;
        drop_rate = rate;
        delay_ms = delay;
        partition = partition;
      })
  fault_of c n _ _ _ partition = inl invalid_value

  set_fault : List String → Parsed
  unfolding parse_bool partition_of fault_of
  set_fault (c ∷ n ∷ crashed ∷ rate ∷ delay ∷ rest) =
      fault_of c n (parse_bool crashed) (parse_float rate) (atoi delay) (partition_of rest)
  set_fault _ = inl usage

  fault_drop : List String → Parsed
  fault_drop (c ∷ n ∷ rate ∷ rest) = elim (parse_float rate) [
    | none ↦ inl invalid_value
    | some r ↦ inr (record (new_command zero_rate cmd_set_drop_rate) {
      cluster_id = c;
      node_id = n;
      drop_rate = r;
    })
  ]
  fault_drop _ = inl usage

  fault_delay : List String → Parsed
  fault_delay (c ∷ n ∷ delay ∷ rest) = elim (atoi delay) [
    | none ↦ inl invalid_value
    | some d ↦
        inr (record (new_command zero_rate cmd_set_delay) {
          cluster_id = c;
          node_id = n;
          delay_ms = d;
        })
  ]
  fault_delay _ = inl usage

  fault_partition : List String → Parsed
  unfolding parse_bool
  fault_partition (c ∷ n ∷ peer ∷ enabled ∷ rest) = elim (parse_bool enabled) [
    | none ↦ inl invalid_value
    | some b ↦ inr (record (new_command zero_rate cmd_set_partition) {
      cluster_id = c;
      node_id = n;
      peer_id = peer;
      enabled = b;
    })
  ]
  fault_partition _ = inl usage

  metrics_start : List String → Parsed
  metrics_start [] = inl usage
  metrics_start (c ∷ []) = inr (record (new_command zero_rate cmd_metrics_start) { cluster_id = c })
  metrics_start (c ∷ interval ∷ rest) = elim (atoi interval) [
    | none ↦ inl invalid_value
    | some i ↦
        inr (record (new_command zero_rate cmd_metrics_start) { cluster_id = c; interval_ms = i })
  ]

  log_lifecycle : List String → Parsed
  log_lifecycle (c ∷ n ∷ t ∷ word ∷ rest) =
      inr (record (new_command zero_rate cmd_log_lifecycle_event) {
        cluster_id = c;
        node_id = n;
        event_type = t;
        value = trim_char b'"' (join " " (word ∷ rest));
      })
  log_lifecycle _ = inl usage

  stop_node : List String → Parsed
  stop_node (w0 ∷ rest) =
      inr (record (new_command zero_rate cmd_stop_node_process) { node_id = w0 })
  stop_node _ = inl usage

  remove_node : List String → Parsed
  remove_node (w0 ∷ w1 ∷ rest) =
      inr (record (new_command zero_rate cmd_remove_node) { cluster_id = w0; node_id = w1 })
  remove_node _ = inl usage

  list_nodes : List String → Parsed
  list_nodes (w0 ∷ rest) = inr (record (new_command zero_rate cmd_list_nodes) { cluster_id = w0 })
  list_nodes _ = inl usage

  fault_crash : List String → Parsed
  fault_crash (w0 ∷ w1 ∷ rest) =
      inr (record (new_command zero_rate cmd_crash_node) { cluster_id = w0; node_id = w1 })
  fault_crash _ = inl usage

  fault_recover : List String → Parsed
  fault_recover (w0 ∷ w1 ∷ rest) =
      inr (record (new_command zero_rate cmd_recover_node) { cluster_id = w0; node_id = w1 })
  fault_recover _ = inl usage

  kv_put : List String → Parsed
  kv_put (w0 ∷ w1 ∷ w2 ∷ w3 ∷ rest) = inr (record (new_command zero_rate cmd_kv_put) {
    cluster_id = w0;
    node_id = w1;
    key = w2;
    value = w3;
  })
  kv_put _ = inl usage

  kv_get : List String → Parsed
  kv_get (w0 ∷ w1 ∷ w2 ∷ rest) =
      inr (record (new_command zero_rate cmd_kv_get) { cluster_id = w0; node_id = w1; key = w2 })
  kv_get _ = inl usage

  set_protocol : List String → Parsed
  set_protocol (w0 ∷ w1 ∷ rest) =
      inr
        (record (new_command zero_rate cmd_set_cluster_protocol) { cluster_id = w0; protocol = w1 })
  set_protocol _ = inl usage

  run_hypothesis : List String → Parsed
  run_hypothesis (w0 ∷ rest) =
      inr (record (new_command zero_rate cmd_run_hypothesis) { file_path = w0 })
  run_hypothesis _ = inl usage

  kill_cluster : List String → Parsed
  kill_cluster (w0 ∷ rest) =
      inr (record (new_command zero_rate cmd_kill_cluster) { cluster_id = w0 })
  kill_cluster _ = inl usage

  metrics_stop : List String → Parsed
  metrics_stop (w0 ∷ rest) =
      inr (record (new_command zero_rate cmd_metrics_stop) { cluster_id = w0 })
  metrics_stop _ = inl usage

  metrics_watch_key : List String → Parsed
  metrics_watch_key (w0 ∷ w1 ∷ rest) =
      inr (record (new_command zero_rate cmd_metrics_watch_key) { cluster_id = w0; key = w1 })
  metrics_watch_key _ = inl usage

  metrics_show : List String → Parsed
  metrics_show (w0 ∷ rest) =
      inr (record (new_command zero_rate cmd_metrics_show) { cluster_id = w0 })
  metrics_show _ = inl usage

  later_commands : String → List String → Parsed
  unfolding set_protocol run_hypothesis kill_cluster metrics_start metrics_stop metrics_watch_key
      metrics_show log_lifecycle
  later_commands name args =
      if name == "set-protocol"
      then set_protocol args
      else if name == "run-hypothesis" || name == "run-experiment"
      then run_hypothesis args
      else if name == "kill-cluster" || name == "stop-cluster"
      then kill_cluster args
      else if name == "metrics-start"
      then metrics_start args
      else if name == "metrics-stop"
      then metrics_stop args
      else if name == "metrics-watch-key"
      then metrics_watch_key args
      else if name == "metrics-show"
      then metrics_show args
      else if name == "log-lifecycle"
      then log_lifecycle args
      else inl unknown_command

  fault_commands : String → List String → Parsed
  unfolding set_fault fault_crash fault_recover fault_drop fault_delay fault_partition kv_put kv_get
      later_commands
  fault_commands name args =
      if name == "set-fault"
      then set_fault args
      else if name == "fault-crash"
      then fault_crash args
      else if name == "fault-recover"
      then fault_recover args
      else if name == "fault-drop"
      then fault_drop args
      else if name == "fault-delay"
      then fault_delay args
      else if name == "fault-partition"
      then fault_partition args
      else if name == "kv-put"
      then kv_put args
      else if name == "kv-get"
      then kv_get args
      else later_commands name args

  commands : String → List String → Parsed
  unfolding start_node stop_node new_cluster remove_node list_nodes add_node fault_commands
  commands name args =
      if name == "help"
      then inr (new_command zero_rate cmd_help)
      else if name == "start-node"
      then start_node args
      else if name == "stop-node"
      then stop_node args
      else if name == "list-node-procs"
      then inr (new_command zero_rate cmd_list_node_processes)
      else if name == "new-cluster"
      then new_cluster args
      else if name == "remove-node"
      then remove_node args
      else if name == "list-nodes"
      then list_nodes args
      else if name == "list-clusters"
      then inr (new_command zero_rate cmd_list_clusters)
      else if name == "add-node"
      then add_node args
      else fault_commands name args

  unfoldable pub parse_words : List String → Parsed
  unfolding commands
  parse_words [] = inl empty_command
  parse_words (name ∷ args) = commands name args

  -- Parse
  unfoldable pub parse : String → Parsed
  unfolding parse_words
  parse input = parse_words (fields input)
