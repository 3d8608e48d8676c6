-- ===== src/Tests/Measurements.antt =====
-- The metrics and their sessions at concrete inputs.
use faultlab.Prelude.{
  ◌≡◌, ◌⊎◌, ◌≤◌, ◌↔◌, ◌%◌, refl, some, true, List, [], ◌∷◌, pos, GoMap, arith, sort_stable, length,
  trim_space, at, insert, str_ltb,
}
use faultlab.Metrics.{
  NodeState, Snapshot, most_common_state, compute, last?, is_earlier, int64_size, finish,
  compute_loop, account, observe, state_eq, less_state, all_nodes_exist, all_exist, add_stale_nodes,
}
use faultlab.Metrics.Mode.{SameButExists, most_common_state_order}
use faultlab.Metrics.Earliest.{Agreed, Quorum, IsEarliest, compute-IsEarliest}
use faultlab.Metrics.Divergence.{final_consistent_iff}
use faultlab.Metrics.Stale.{total, stale-area}
use faultlab.Metrics.Sessions.{
  SessionManager, history_of, start, stop, record_snapshot, new_session_manager, drop_oldest,
  history_cap, last_running, is_running, change_last, started, with_snapshot, stopped, ensure,
  list_at, add_key,
}
use faultlab.Metrics.Sessions.History.{IsHistory}
use faultlab.Metrics.Sessions.Reach.{
  created, later, starting, stopping, sampling, Reachable-IsHistory,
}
use faultlab.Metrics.Sessions.Sealed.{Keeps, Step-Keeps}

abbrev state_a : NodeState
state_a = record { exists = true; value = "a"; version = pos 2; origin = "n1"; has_metadata = true }

abbrev state_b : NodeState
state_b = record { exists = true; value = "b"; version = pos 3; origin = "n2"; has_metadata = true }

abbrev split_nodes : GoMap NodeState
split_nodes = ("n1", state_a) ∷ ("n2", state_b) ∷ ("n3", state_a) ∷ []

abbrev turned_nodes : GoMap NodeState
turned_nodes = ("n2", state_b) ∷ ("n3", state_a) ∷ ("n1", state_a) ∷ []

abbrev equal_nodes : GoMap NodeState
equal_nodes = ("n1", state_b) ∷ ("n2", state_b) ∷ ("n3", state_b) ∷ []

-- Out of order in time.
abbrev samples : List Snapshot
samples =
    record { time = 900; nodes = equal_nodes }
    ∷ record { time = 100; nodes = split_nodes }
    ∷ record { time = 400; nodes = [] }
    ∷ []

samples_metrics :
    ((compute samples).convergence_time ≡ some 900)
    × ((compute samples).first_agreement_time ≡ some 100)
    × ((compute samples).final_consistent ≡ true)
    × ((compute samples).peak_divergence ≡ 1)
    × ((compute samples).area_under_divergence ≡ 300)
    × ((compute samples).stale_duration_per_node ≡ ("n2", 300) ∷ [])
unfolding compute finish compute_loop account observe most_common_state state_eq less_state
    all_nodes_exist all_exist is_earlier add_stale_nodes sort_stable last? at insert str_ltb
samples_metrics = (refl, refl, refl, refl, refl, refl)

most_common_state_order_example :
    ((most_common_state split_nodes).1 ≡ (most_common_state turned_nodes).1)
    × SameButExists (most_common_state split_nodes).0 (most_common_state turned_nodes).0
most_common_state_order_example =
    most_common_state_order split_nodes turned_nodes (λ s. omega arith) (λ e. absurd (cc))

compute-IsEarliest_example :
    IsEarliest (λ s. Agreed s.nodes) samples (compute samples).convergence_time
    × IsEarliest (λ s. Quorum s.nodes) samples (compute samples).first_agreement_time
compute-IsEarliest_example = compute-IsEarliest samples

final_consistent_iff_example :
    ((compute samples).final_consistent ≡ true)
    ↔ ((s : Snapshot) × (last? (sort_stable is_earlier samples) ≡ some s) × Agreed s.nodes)
final_consistent_iff_example = final_consistent_iff samples

stale-area_example :
    total (compute samples).stale_duration_per_node % int64_size
    ≡ (compute samples).area_under_divergence
stale-area_example = stale-area samples

abbrev begun : SessionManager
begun = (start new_session_manager " lab" 10).1

abbrev measured : SessionManager
measured = (record_snapshot begun "lab" "k" 15 split_nodes).1

abbrev ended : SessionManager
ended = (stop measured "lab" 20).1

Reachable-IsHistory_example : IsHistory "lab" (history_of ended "lab")
Reachable-IsHistory_example =
    Reachable-IsHistory ended
      (later (later (later created (starting " lab" 10)) (sampling "lab" "k" 15 split_nodes))
        (stopping "lab" 20))
      "lab"

Step-Keeps_example :
    Keeps (history_of ended "lab") (history_of (start ended "lab" 30).1 "lab")
    ⊎ ((history_cap ≤ length (history_of ended "lab"))
        × Keeps (drop_oldest (history_of ended "lab")) (history_of (start ended "lab" 30).1 "lab"))
Step-Keeps_example = Step-Keeps (starting "lab" 30) "lab"

ended_history : length (history_of (start ended "lab" 30).1 "lab") ≡ 2
unfolding start stop record_snapshot history_of last_running last? is_running change_last started
    with_snapshot stopped ensure list_at add_key new_session_manager at insert trim_space
ended_history = refl
