-- ===== src/Tests/Scenarios.antt =====
-- Experiments and their commands at concrete inputs.
use faultlab.Prelude.{
  ◌≡◌, inl, inr, refl, ℕ, String, some, none, false, Option, List, [], ◌∷◌, map, pos, ltb_ℤ, All,
  IsSorted, arith, sort_stable, trim_space, join, to_lower, cut_prefix, contains,
}
use faultlab.Prelude.GoStrings.Words.{is_solid}
use faultlab.Experiment.{
  ClusterConfig, TimelineStep, Experiment, normalize, is_earlier_step, validate, validate_step,
  check_steps, check_members, check_write, is_blank, fails_if, or_else, has_prefix,
}
use faultlab.Experiment.Compile.{
  CommandBatch, CompileOptions, compile, compile_steps, compile_commands, unless_invalid,
  chosen_cluster_id, kv_put_command, start_node_command, resolve_write_targets,
  resolve_group_node_id, is_member,
}
use faultlab.Experiment.Commands.{
  parse-kv_put_command, parse-start_node_command, start_without_peers,
}
use faultlab.Experiment.Order.{compile_order}
use faultlab.ControlPlane.{new_command, cmd_kv_put, cmd_start_node_process}
use faultlab.ControlPlane.Parser.{unknown_option, parse, is_option}

abbrev no_float : String → Option ℕ
no_float s = none

abbrev step : TimelineStep
step = record {
  at = pos 5;
  action = "write";
  groups = [];
  key = "k";
  value = "hello world";
  target = " n1 ";
}

abbrev metrics_step : TimelineStep
metrics_step = record {
  at = pos 0;
  action = "start_metrics_collection";
  groups = [];
  key = "";
  value = "";
  target = "";
}

abbrev config : ClusterConfig
config = record {
  id = "lab";
  members =
      record { id = "n1"; port = pos 7001; host = "" }
      ∷ record { id = "n2"; port = pos 7002; host = "" }
      ∷ record { id = "n3"; port = pos 7003; host = "" }
      ∷ [];
}

abbrev experiment : Experiment
experiment = record { name = "late"; cluster = config; timeline = step ∷ metrics_step ∷ [] }

abbrev options : CompileOptions
options = record { cluster_id = ""; control_plane_host = ""; control_plane_port = pos 0 }

abbrev batches : List CommandBatch
batches =
    record { at = pos 0; commands = "metrics-start lab" ∷ [] }
    ∷ record { at = pos 5; commands = "kv-put lab n1 k hello world" ∷ [] }
    ∷ []

compiled : compile (normalize experiment) options ≡ inr batches
unfolding compile compile_steps compile_commands unless_invalid chosen_cluster_id normalize
    is_earlier_step sort_stable validate validate_step check_steps check_members check_write
    is_blank fails_if or_else has_prefix resolve_write_targets resolve_group_node_id is_member
    kv_put_command join trim_space to_lower cut_prefix contains
compiled = refl

compile_order_example :
    (map (λ b. b.at) batches ≡ map (λ s. s.at) (sort_stable is_earlier_step experiment.timeline))
    × IsSorted is_earlier_step (sort_stable is_earlier_step experiment.timeline)
    × All (λ s. ltb_ℤ s.at (pos 0) ≡ false) experiment.timeline
compile_order_example = compile_order experiment options batches compiled

parse-kv_put_command_example :
    parse 0 no_float (kv_put_command "lab" step "n1")
    ≡ inr (record (new_command 0 cmd_kv_put) {
      cluster_id = "lab";
      node_id = "n1";
      key = "k";
      value = "hello";
    })
parse-kv_put_command_example =
    parse-kv_put_command 0 no_float "lab" "n1" "hello" ("world" ∷ []) step
      (unfold is_solid in
        ((refl, refl), ((refl, refl), ((refl, refl), ((refl, refl), ((refl, refl), tt))))))
      (unfold join in refl)

parse-start_node_command_example :
    map
      (parse 0 no_float)
      (start_node_command "lab" "localhost" (pos 9091) "n2:7002" (some ("n1", pos 7001, "h")) [])
    ≡ inr (record (new_command 0 cmd_start_node_process) {
      cluster_id = "lab";
      node_id = "n1";
      port = pos 7001;
      host = "h";
      peers_csv = "n2:7002";
      cp_host = "localhost";
      cp_port = pos 9091;
    })
      ∷ []
parse-start_node_command_example =
    parse-start_node_command 0 no_float "lab" "n1" "h" "localhost" (pos 7001) (pos 9091)
      (omega arith) (omega arith) (unfold is_solid in (refl, refl))
      (unfold is_solid in (refl, refl)) (unfold is_solid in (refl, refl))
      (unfold is_solid in (refl, refl)) "n2:7002" (unfold is_solid in (refl, refl))

start_without_peers_example :
    map
      (parse 0 no_float)
      (start_node_command "lab" "localhost" (pos 9091) "" (some ("n1", pos 7001, "h")) [])
    ≡ inl unknown_option ∷ []
start_without_peers_example =
    start_without_peers 0 no_float "lab" "n1" "h" "localhost" (pos 7001) (pos 9091) (omega arith)
      (omega arith) (unfold is_solid in (refl, refl)) (unfold is_solid in (refl, refl))
      (unfold is_solid in (refl, refl)) (unfold is_solid in (refl, refl)) (unfold is_option in refl)

abbrev sides : List (List String)
sides = ("n1" ∷ []) ∷ ("n2" ∷ "n3" ∷ []) ∷ []
