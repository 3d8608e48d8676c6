-- ===== src/Metrics/Sessions.antt =====
-- internal/metrics/session_manager.go: the sessions of each cluster, the oldest first. A time is a
-- number of nanoseconds. A set of keys is the list of its members; an error is its kind.
pub mod History
pub mod Reach
pub mod Sealed
use Prim.Native.String.{◌++◌}
use faultlab.Prelude.{
  ℕ, suc, ◌+◌, ◌-◌, ltb, leb, String, Bool, true, false, not, Option, none, some, List, [], ◌∷◌,
  ◌++◌ as append, map, if◌then◌else◌, ℤ, pos, negsuc, max_int64, GoMap, at, insert, ◌==◌, str_ltb,
  length, get_elem?, sort_stable, trim_space, print_int,
}
use faultlab.Metrics.{NodeState, Snapshot, TimelineEvent, DivergencePoint, Result, compute, last?}

pub record SessionStats : Type 0 where
  pub total_rpcs : ℕ
  pub total_writes : ℕ
  pub recent_keys : List String

pub record Session : Type 0 where
  pub cluster_id : String
  pub started_at : ℕ
  pub stopped_at : Option ℕ
  pub tracked_keys : List String
  pub snapshots : GoMap (List Snapshot)
  pub timeline : GoMap (List TimelineEvent)
  pub stats : SessionStats

pub record SessionSnapshot : Type 0 where
  pub cluster_id : String
  pub started_at : ℕ
  pub stopped_at : Option ℕ
  pub tracked_keys : List String
  pub stats : SessionStats

abbrev pub SessionManager : Type 0
SessionManager = GoMap (List Session)

pub data SessionError : Type 0 where
  cluster_required already_active no_session already_stopped is_stopped not_found : SessionError

abbrev pub zero_stats : SessionStats
zero_stats = record { total_rpcs = 0; total_writes = 0; recent_keys = [] }

unfoldable pub new_session_manager : SessionManager
new_session_manager = []

-- m.sessions[clusterID], empty where it is missing
unfoldable pub history_of : SessionManager → String → List Session
history_of m cluster_id = elim (at m cluster_id) [ none ↦ [] | some history ↦ history ]

unfoldable pub list_at {ℓ} : {A : Type ℓ} → GoMap (List A) → String → List A
list_at m key = elim (at m key) [ none ↦ [] | some l ↦ l ]

-- set[key] = struct{}{}
unfoldable pub add_key : List String → String → List String
add_key [] key = key ∷ []
add_key (k ∷ keys) key = if k == key then k ∷ keys else k ∷ add_key keys key

-- if _, exists := m[key]; !exists { m[key] = []T{} }
unfoldable pub ensure {ℓ} : {A : Type ℓ} → GoMap (List A) → String → GoMap (List A)
ensure m key = elim (at m key) [ none ↦ insert m key [] | some _ ↦ m ]

-- s.StoppedAt == nil
unfoldable pub is_running : Session → Bool
is_running s = elim s.stopped_at [ none ↦ true | some _ ↦ false ]

unfoldable pub last_running : List Session → Bool
last_running history = elim (last? history) [ none ↦ false | some s ↦ is_running s ]

-- A change of history[len(history)-1].
unfoldable pub change_last : (Session → Session) → List Session → List Session
change_last f [] = []
change_last f (s ∷ []) = f s ∷ []
change_last f (s ∷ t ∷ rest) = s ∷ change_last f (t ∷ rest)

abbrev pub history_cap : ℕ
history_cap = 50

unfoldable pub drop_oldest : List Session → List Session
drop_oldest [] = []
drop_oldest (s ∷ rest) = rest

unfoldable pub new_session : String → ℕ → Session
new_session cluster_id now = record {
  cluster_id = cluster_id;
  started_at = now;
  stopped_at = none;
  tracked_keys = [];
  snapshots = [];
  timeline = [];
  stats = zero_stats;
}

-- What Start puts under the cluster's id.
unfoldable pub started : String → ℕ → List Session → List Session
unfolding new_session drop_oldest
started cluster_id now history =
    append (if leb history_cap (length history) then drop_oldest history else history)
      (new_session cluster_id now ∷ [])

-- Start
unfoldable pub start : SessionManager → String → ℕ → Option SessionError × SessionManager
start m cluster now =
    let cluster_id = trim_space cluster in
    let history = history_of m cluster_id in
    if cluster_id == ""
    then (some cluster_required, m)
    else if last_running history
    then (some already_active, m)
    else (none, insert m cluster_id (started cluster_id now history))

-- The guards that the operations on the running session share, and the change of that session.
unfoldable pub change_running :
    SessionError
    → SessionManager
    → String
    → (Session → Session)
    → Option SessionError × SessionManager
change_running refusal m cluster_id f =
    let history = history_of m cluster_id in
    elim (last? history) [
      | none ↦ (some no_session, m)
      | some s ↦
          if is_running s
          then (none, insert m cluster_id (change_last f history))
          else (some refusal, m)
    ]

unfoldable pub stopped : ℕ → Session → Session
stopped now s = record s { stopped_at = some now }

-- Stop
unfoldable pub stop : SessionManager → String → ℕ → Option SessionError × SessionManager
unfolding change_running
stop m cluster now =
    let cluster_id = trim_space cluster in
    if cluster_id == ""
    then (some cluster_required, m)
    else change_running already_stopped m cluster_id (stopped now)

unfoldable pub with_stats : SessionStats → Session → Session
with_stats stats s = record s { stats = stats }

-- UpdateSessionStats
unfoldable pub update_session_stats : SessionManager → String → SessionStats → SessionManager
update_session_stats m cluster_id stats =
    let history = history_of m cluster_id in
    if ltb 0 (length history)
    then insert m cluster_id (change_last (with_stats stats) history)
    else m

-- IsActive
unfoldable pub is_active : SessionManager → String → Bool
is_active m cluster = last_running (history_of m (trim_space cluster))

unfoldable pub tracked : String → Session → Session
tracked key s = record s {
  tracked_keys = add_key s.tracked_keys key;
  snapshots = ensure s.snapshots key;
  timeline = ensure s.timeline key;
}

-- TrackKey
unfoldable pub track_key : SessionManager → String → String → Option SessionError × SessionManager
unfolding change_running
track_key m cluster key =
    change_running is_stopped m (trim_space cluster) (tracked (trim_space key))

-- observedAt.Sub(s.StartedAt), at most the largest duration, and 0 where it is negative
unfoldable pub since : ℕ → ℕ → ℕ
since started_at observed_at =
    let t = observed_at - started_at in if ltb max_int64 t then max_int64 else t

unfoldable pub with_event : String → ℕ → TimelineEvent → Session → Session
unfolding since
with_event key observed_at event s = record s {
  tracked_keys = add_key s.tracked_keys key;
  timeline = insert (ensure s.timeline key) key (
      append (list_at (ensure s.timeline key) key)
        (record event { time = since s.started_at observed_at } ∷ []));
}

-- RecordTimelineEvent
unfoldable pub record_timeline_event :
    SessionManager → String → String → ℕ → TimelineEvent → Option SessionError × SessionManager
unfolding change_running
record_timeline_event m cluster key observed_at event =
    change_running is_stopped m (trim_space cluster) (with_event (trim_space key) observed_at event)

unfoldable pub with_snapshot : String → ℕ → GoMap NodeState → Session → Session
unfolding since
with_snapshot key observed_at nodes s = record s {
  tracked_keys = add_key s.tracked_keys key;
  snapshots = insert (ensure s.snapshots key) key (
      append (list_at (ensure s.snapshots key) key)
        (record { time = since s.started_at observed_at; nodes = nodes } ∷ []));
}

-- RecordSnapshot
unfoldable pub record_snapshot :
    SessionManager → String → String → ℕ → GoMap NodeState → Option SessionError × SessionManager
unfolding change_running
record_snapshot m cluster key observed_at nodes =
    change_running is_stopped m (trim_space cluster)
      (with_snapshot (trim_space key) observed_at nodes)

unfoldable pub session_snapshot : Session → SessionSnapshot
session_snapshot s = record {
  cluster_id = s.cluster_id;
  started_at = s.started_at;
  stopped_at = s.stopped_at;
  tracked_keys = sort_stable str_ltb s.tracked_keys;
  stats = s.stats;
}

-- GetSession; `none` is its error
unfoldable pub get_session : SessionManager → String → Option SessionSnapshot
get_session m cluster = elim (last? (history_of m (trim_space cluster))) [
  | none ↦ none
  | some s ↦ some (session_snapshot s)
]

-- GetHistory
unfoldable pub get_history : SessionManager → String → List SessionSnapshot
get_history m cluster_id = map session_snapshot (history_of m cluster_id)

-- The distinct values of the map.
unfoldable pub distinct_values : GoMap String → List String
distinct_values [] = []
distinct_values ((id, v) ∷ m) = add_key (distinct_values m) v

unfoldable pub value_text : TimelineEvent → String
value_text e = e.value ++ ("|" ++ (e.origin ++ ("|" ++ print_int e.version)))

curve_loop : GoMap String → List TimelineEvent → List DivergencePoint
curve_loop node_values [] = []
curve_loop node_values (e ∷ events) =
    let values = insert node_values e.node_id (value_text e) in
    record { time = e.time; divergence = length (distinct_values values) }
    ∷ curve_loop values events

unfoldable pub is_earlier_event : TimelineEvent → TimelineEvent → Bool
is_earlier_event a b = ltb a.time b.time

-- computeConvergenceCurve
unfoldable pub compute_convergence_curve : List TimelineEvent → List DivergencePoint
unfolding curve_loop
compute_convergence_curve events = curve_loop [] (sort_stable is_earlier_event events)

-- The metrics of one key of a session.
unfoldable pub key_result : Session → String → Result
key_result s key = record (compute (list_at s.snapshots key)) {
  timeline = list_at s.timeline key;
  convergence_curve = compute_convergence_curve (list_at s.timeline key);
}

-- ComputeKeyResult; `none` is its error
unfoldable pub compute_key_result : SessionManager → String → String → Option Result
compute_key_result m cluster_id key = elim (last? (history_of m cluster_id)) [
  | none ↦ none
  | some s ↦ some (key_result s key)
]

-- for k := range m { set[k] = struct{}{} }
unfoldable pub add_keys {ℓ} : {A : Type ℓ} → List String → GoMap A → List String
add_keys keys [] = keys
add_keys keys ((k, _) ∷ m) = add_keys (add_key keys k) m

results_for : Session → List String → GoMap Result → GoMap Result
results_for s [] out = out
results_for s (key ∷ keys) out = results_for s keys (insert out key (key_result s key))

-- The metrics of every key that has snapshots or events.
unfoldable pub session_results : Session → GoMap Result
unfolding results_for
session_results s = results_for s (add_keys (add_keys [] s.snapshots) s.timeline) []

-- ComputeResultsBySessionID; `none` is its error
unfoldable pub compute_results_by_session_id : SessionManager → String → ℤ → Option (GoMap Result)
compute_results_by_session_id m cluster_id (negsuc _) = none
compute_results_by_session_id m cluster_id (pos i) = elim (get_elem? (history_of m cluster_id) i) [
  | none ↦ none
  | some s ↦ some (session_results s)
]

-- ComputeAllResults; `none` is its error
unfoldable pub compute_all_results : SessionManager → String → Option (GoMap Result)
compute_all_results m cluster_id = elim (last? (history_of m cluster_id)) [
  | none ↦ none
  | some s ↦ some (session_results s)
]
