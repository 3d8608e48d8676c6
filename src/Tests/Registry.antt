-- ===== src/Tests/Registry.antt =====
-- The control plane's registry at concrete inputs; a drop rate is a number of per cent.
use faultlab.Prelude.{
  ◌≡◌, refl, ℕ, none, some, true, [], ◌∷◌, map, pos, at, insert, IsMap, trim_space, to_lower,
  delete,
}
use faultlab.Cluster.{FaultState, Node, Cluster, default_fault_state}
use faultlab.Cluster.Manager.{
  Manager, create_cluster, register_node, get_node, set_fault_params, cleanup, new_manager,
  fresh_node, chosen_protocol, unsupported_protocol, get_nodes, get_clusters, passed_on,
}
use faultlab.Cluster.Manager.Cleanup.{remaining, get_node-cleanup}
use faultlab.Cluster.Manager.Reach.{
  creating, registering, Reachable, created as begun, later, Reachable-IsRegistry,
}
use faultlab.Cluster.Manager.Survival.{crashed_survives}

abbrev m0 : Manager ℕ
m0 = (create_cluster (new_manager true) "lab" "Gossip ").1

abbrev m1 : Manager ℕ
m1 = (register_node 0 m0 "lab" "n1" "localhost" (pos 7001) 100).0

-- A cluster lab with the nodes n1, last seen at 100, and n2, last seen at 200.
abbrev m2 : Manager ℕ
m2 = (register_node 0 m1 "lab" "n2" "localhost" (pos 7002) 200).0

m2-Reachable : Reachable 0 m2
m2-Reachable =
    later
      (later (later (begun true) (creating "lab" "Gossip "))
        (registering "lab" "n1" "localhost" (pos 7001) 100))
      (registering "lab" "n2" "localhost" (pos 7002) 200)

abbrev n1 : Node ℕ
n1 = fresh_node 0 "n1" "localhost" (pos 7001) 100

abbrev crash_faults : FaultState ℕ
crash_faults = record { crashed = true; drop_rate = 5; delay_ms = pos 0; partition = [] }

found_n1 : get_node m2 "lab" "n1" ≡ some n1
unfolding create_cluster new_manager register_node get_node at insert chosen_protocol trim_space
    to_lower
found_n1 = refl

lab_nodes : (k : Cluster ℕ) → at m2.clusters "lab" ≡ some k → IsMap k.nodes
lab_nodes k e = let (i, p, im, ids) = Reachable-IsRegistry 0 m2 m2-Reachable "lab" k e in im

get_node-cleanup_example :
    get_node (cleanup 50 (λ c n. 160) m2) "lab" "n1" ≡ remaining 50 160 (get_node m2 "lab" "n1")
get_node-cleanup_example = get_node-cleanup 50 (λ c n. 160) m2 "lab" "n1" lab_nodes

crashed_survives_example :
    get_node (cleanup 50 (λ c n. 900) (set_fault_params m2 "lab" "n1" crash_faults).1) "lab" "n1"
    ≡ some (record n1 { fault = crash_faults; status = "crashed" })
crashed_survives_example =
    crashed_survives 0 m2 50 (λ c n. 900) "lab" "n1" n1 crash_faults m2-Reachable found_n1 refl

-- Runs of the definitions.
registry_runs :
    (get_node (cleanup 50 (λ c n. 160) m2) "lab" "n1" ≡ none)
    × (get_node (cleanup 50 (λ c n. 160) m2) "lab" "n2" ≡ get_node m2 "lab" "n2")
    × ((create_cluster m2 "other" "paxos").0 ≡ some unsupported_protocol)
    × ((set_fault_params m2 "lab" "n1" crash_faults).0
        ≡ passed_on "localhost" (pos 7001) "n1" crash_faults)
    × (get_clusters m2 ≡ "lab" ∷ [])
    × (map (λ x. x.id) (elim (get_nodes m2 "lab") [ none ↦ [] | some ns ↦ ns ]) ≡ "n1" ∷ "n2" ∷ [])
unfolding create_cluster new_manager register_node get_node at insert chosen_protocol trim_space
    to_lower cleanup delete set_fault_params get_clusters get_nodes default_fault_state
registry_runs = (refl, refl, refl, refl, refl, refl)
