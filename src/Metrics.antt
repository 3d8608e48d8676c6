-- ===== src/Metrics.antt =====
-- internal/metrics/metrics.go: the metrics of one tracked key, from the snapshots of a session.
-- A duration is a number of nanoseconds that is not negative: RecordSnapshot and
-- RecordTimelineEvent set negative ones to 0, and Compute is called on what they stored. A sum of
-- durations is an int64 and wraps round.
pub mod Mode
pub mod Earliest
pub mod Divergence
pub mod Stale
pub mod Sessions
use faultlab.Prelude.{
  ℕ, suc, ◌+◌, ◌-◌, ◌*◌, ◌/◌, ◌%◌, ◌^◌, ltb, leb, ◌=ℕ=◌, String, Bool, true, false, not, ◌&&◌, ◌||◌,
  Option, none, some, List, [], ◌∷◌, ◌++◌, if◌then◌else◌, ℤ, pos, ◌=ℤ=◌, ltb_ℤ, GoMap, at, insert,
  ◌==◌, str_ltb, length, sort_stable,
}

pub record NodeState : Type 0 where
  pub exists : Bool
  pub value : String
  pub version : ℤ
  pub origin : String
  pub has_metadata : Bool

pub record Snapshot : Type 0 where
  pub time : ℕ
  pub nodes : GoMap NodeState

pub record TimelineEvent : Type 0 where
  pub time : ℕ
  pub node_id : String
  pub key : String
  pub value : String
  pub version : ℤ
  pub origin : String
  pub source : String
  pub event_type : String
  pub round : ℕ
  pub lww_timestamp : ℤ

pub record DivergencePoint : Type 0 where
  pub time : ℕ
  pub divergence : ℕ

pub record Result : Type 0 where
  pub convergence_time : Option ℕ
  pub first_agreement_time : Option ℕ
  pub final_consistent : Bool
  pub peak_divergence : ℕ
  pub area_under_divergence : ℕ
  pub divergence_over_time : List DivergencePoint
  pub stale_duration_per_node : GoMap ℕ
  pub timeline : List TimelineEvent
  pub convergence_curve : List DivergencePoint

abbrev pub zero_state : NodeState
zero_state = record {
  exists = false;
  value = "";
  version = pos 0;
  origin = "";
  has_metadata = false;
}

abbrev pub same_bool : Bool → Bool → Bool
same_bool true b = b
same_bool false b = not b

-- a == b
unfoldable pub state_eq : NodeState → NodeState → Bool
state_eq a b =
    same_bool a.exists b.exists
    && (a.value == b.value
        && (a.version =ℤ= b.version
            && (a.origin == b.origin && same_bool a.has_metadata b.has_metadata)))

unfoldable pub less_state : NodeState → NodeState → Bool
less_state a b =
    if not (a.value == b.value)
    then str_ltb a.value b.value
    else if not (a.version =ℤ= b.version)
    then ltb_ℤ a.version b.version
    else if not (a.origin == b.origin)
    then str_ltb a.origin b.origin
    else if not (same_bool a.has_metadata b.has_metadata)
    then not a.has_metadata && b.has_metadata
    else false

unfoldable pub all_exist : GoMap NodeState → Bool
all_exist [] = true
all_exist ((id, n) ∷ nodes) = if not n.exists then false else all_exist nodes

unfoldable pub all_nodes_exist : GoMap NodeState → Bool
unfolding all_exist
all_nodes_exist [] = false
all_nodes_exist (e ∷ nodes) = all_exist (e ∷ nodes)

-- counts[state]
unfoldable pub count_at : List (NodeState × ℕ) → NodeState → ℕ
count_at [] s = 0
count_at ((t, n) ∷ counts) s = if state_eq t s then n else count_at counts s

-- counts[state]++
unfoldable pub increment : List (NodeState × ℕ) → NodeState → List (NodeState × ℕ)
increment [] s = (s, 1) ∷ []
increment ((t, n) ∷ counts) s =
    if state_eq t s then (t, n + 1) ∷ counts else (t, n) ∷ increment counts s

-- Whether the loop takes `state`, seen `count` times, as the new top.
unfoldable pub is_better : ℕ → NodeState → ℕ → NodeState → Bool
is_better count state top_count top_state =
    ltb top_count count || (count =ℕ= top_count && less_state state top_state)

-- The loop of mostCommonState.
unfoldable pub top_of : List (NodeState × ℕ) → NodeState → ℕ → GoMap NodeState → NodeState × ℕ
top_of counts top_state top_count [] = (top_state, top_count)
top_of counts top_state top_count ((id, state) ∷ nodes) =
    let counts' = increment counts state in
    let count = count_at counts' state in
    let better = is_better count state top_count top_state in
    top_of counts' (if better then state else top_state) (if better then count else top_count) nodes

unfoldable pub most_common_state : GoMap NodeState → NodeState × ℕ
unfolding top_of count_at increment is_better
most_common_state [] = (zero_state, 0)
most_common_state (e ∷ nodes) = top_of [] zero_state 0 (e ∷ nodes)

-- What a sum of durations keeps.
abbrev pub int64_size : ℕ
int64_size = 2 ^ 64

-- StaleDurationPerNode[nodeID] += delta
unfoldable pub add_stale : GoMap ℕ → String → ℕ → GoMap ℕ
add_stale stale id delta =
    insert stale id (((elim (at stale id) [ none ↦ 0 | some n ↦ n ]) + delta) % int64_size)

unfoldable pub add_stale_nodes : NodeState → ℕ → GoMap NodeState → GoMap ℕ → GoMap ℕ
unfolding add_stale
add_stale_nodes mode delta [] stale = stale
add_stale_nodes mode delta ((id, s) ∷ nodes) stale =
    add_stale_nodes mode delta nodes
      (if not (state_eq s mode) then add_stale stale id delta else stale)

-- The end of the loop's body: the time until the next snapshot, if there is one.
unfoldable pub account : Snapshot → List Snapshot → Result → Result
account snapshot [] r = r
account snapshot (next ∷ rest) r =
    let (mode, mode_count) = most_common_state snapshot.nodes in
    let delta = next.time - snapshot.time in
    record r {
      area_under_divergence =
          (r.area_under_divergence + (length snapshot.nodes - mode_count) * delta) % int64_size;
      stale_duration_per_node = add_stale_nodes mode delta snapshot.nodes r.stale_duration_per_node;
    }

-- if result.ConvergenceTime == nil { … }
first_time : Option ℕ → Bool → ℕ → Option ℕ
first_time (some t) found time = some t
first_time none found time = if found then some time else none

-- The body of Compute's loop before that.
unfoldable pub observe : Snapshot → Result → Result
unfolding first_time
observe snapshot r =
    let (mode, mode_count) = most_common_state snapshot.nodes in
    let divergence = length snapshot.nodes - mode_count in
    let quorum = length snapshot.nodes / 2 + 1 in
    record r {
      divergence_over_time =
          r.divergence_over_time ++ record { time = snapshot.time; divergence = divergence } ∷ [];
      peak_divergence = if ltb r.peak_divergence divergence then divergence else r.peak_divergence;
      convergence_time =
          first_time r.convergence_time (divergence =ℕ= 0 && all_nodes_exist snapshot.nodes)
            snapshot.time;
      first_agreement_time =
          first_time r.first_agreement_time (leb quorum mode_count && ltb 0 quorum) snapshot.time;
    }

-- The loop of Compute over the ordered snapshots.
unfoldable pub compute_loop : List Snapshot → Result → Result
compute_loop [] r = r
compute_loop (snapshot ∷ rest) r = compute_loop rest (account snapshot rest (observe snapshot r))

unfoldable pub last? {ℓ} : {A : Type ℓ} → List A → Option A
last? [] = none
last? (x ∷ []) = some x
last? (x ∷ y ∷ ys) = last? (y ∷ ys)

-- The test behind FinalConsistent; both lists have a last element there.
final_test : Option DivergencePoint → Option Snapshot → Bool
final_test (some last) (some snapshot) = last.divergence =ℕ= 0 && all_nodes_exist snapshot.nodes
final_test _ _ = false

unfoldable pub is_earlier : Snapshot → Snapshot → Bool
is_earlier a b = ltb a.time b.time

abbrev pub empty_result : Result
empty_result = record {
  convergence_time = none;
  first_agreement_time = none;
  final_consistent = false;
  peak_divergence = 0;
  area_under_divergence = 0;
  divergence_over_time = [];
  stale_duration_per_node = [];
  timeline = [];
  convergence_curve = [];
}

unfoldable pub finish : List Snapshot → Result → Result
unfolding final_test
finish ordered r = record r {
  final_consistent = final_test (last? r.divergence_over_time) (last? ordered);
}

-- Compute
unfoldable pub compute : List Snapshot → Result
compute [] = empty_result
compute (s ∷ snapshots) =
    let ordered = sort_stable is_earlier (s ∷ snapshots) in
    finish ordered (compute_loop ordered empty_result)
