-- ===== src/ControlPlane/Service/Stats.antt =====
-- The statistics that StopMetricsSession seals, and those that it returns.
use mathlib.Core.Path.{subst}
use faultlab.Prelude.{
  ℕ, ◌<◌, ltb, ◌=ℕ=◌, ◌≡◌, ◌≢◌, inl, inr, refl, sym, ap, ◌∙◌, String, true, false, ◌&&◌, Option,
  none, some, List, [], ◌∷◌, length, ℤ, GoMap, at-delete, insert, ◌==◌, eq_refl, eq_iff, trim_space,
  Option-cases, Bool-cases, if◌then◌else◌, arith,
}
use faultlab.Cluster.{Node}
use faultlab.Cluster.Manager.{get_nodes}
use faultlab.Metrics.{last?, NodeState}
use faultlab.Metrics.Sessions.{
  Session, SessionStats, SessionManager, SessionSnapshot, SessionError, is_stopped, already_stopped,
  history_of, is_running, stopped, with_stats, with_snapshot, last_running, change_last,
  change_running, stop, is_active, get_session, session_snapshot, record_snapshot,
  update_session_stats, compute_all_results, session_results,
}
use faultlab.Metrics.Sessions.History.{history_of-insert, history_of-change_running}
use faultlab.ControlPlane.Service.{
  Service, GetAnswer, counter, uint64_size, baseline_of, sample_nodes, sample_keys, sampled,
  sample_all_tracked_keys,
}
use faultlab.ControlPlane.Service.Sessions.{
  MetricsSnapshot, since_baseline, stats_now, sealed, stop_with, stop_metrics_session,
  get_metrics_snapshot,
}

abbrev mapped : (Session → Session) → Option Session → Option Session
mapped f none = none
mapped f (some s) = some (f s)

last?-change_last :
    (f : Session → Session) (h : List Session) → last? (change_last f h) ≡ mapped f (last? h)
unfolding change_last last?
last?-change_last f [] = refl
last?-change_last f (s ∷ []) = refl
last?-change_last f (s ∷ t ∷ []) = refl
last?-change_last f (s ∷ t ∷ u ∷ rest) = last?-change_last f (t ∷ u ∷ rest)

-- The history has a last session that is running.
abbrev Runs : List Session → Type 0
Runs h = (x : Session) × (last? h ≡ some x) × (is_running x ≡ true)

Runs-of_last_running : (h : List Session) → last_running h ≡ true → Runs h
unfolding last_running
Runs-of_last_running h r = elim (Option-cases (last? h)) [
  | inl e ↦ absurd (ground (arith))
  | inr (x, e) ↦ (x, e, ground arith)
]

Runs-change_last :
    (f : Session → Session) (h : List Session)
    → ((s : Session) → is_running (f s) ≡ is_running s)
    → Runs h
    → Runs (change_last f h)
Runs-change_last f h k (x, e, r) = (f x, last?-change_last f h ∙ rw e refl, k x ∙ r)

with_snapshot-running :
    (key : String) (now : ℕ) (nodes : GoMap NodeState) (s : Session)
    → is_running (with_snapshot key now nodes s) ≡ is_running s
unfolding with_snapshot is_running
with_snapshot-running key now nodes s = refl

record_snapshot-Runs :
    (m : SessionManager) (c key : String) (now : ℕ) (nodes : GoMap NodeState) (j : String)
    → Runs (history_of m j)
    → Runs (history_of (record_snapshot m c key now nodes).1 j)
unfolding record_snapshot
record_snapshot-Runs m c key now nodes j h =
    let f = with_snapshot (trim_space key) now nodes in
    let e = history_of-change_running is_stopped m (trim_space c) f j in
    elim (Bool-cases ((trim_space c == j) && last_running (history_of m (trim_space c)))) [
      | inl b ↦
          let p = (eq_iff (trim_space c) j).0 (ground arith) in
          subst Runs (sym (e ∙ rw b refl)) (
            Runs-change_last f (history_of m (trim_space c))
              (with_snapshot-running (trim_space key) now nodes) (rw p h))
      | inr b ↦ subst Runs (sym (e ∙ rw b refl)) h
    ]

module _ {Float : Type 0} (ask : String → ℤ → String → String → GetAnswer) where
  sample_keys-Runs :
      (s : Service Float) (c : String) (nodes : List (Node Float)) (now : ℕ) (keys : List String)
      (m : SessionManager) (j : String)
      → Runs (history_of m j)
      → Runs (history_of (sample_keys ask s.cluster c nodes now keys m) j)
  unfolding sample_keys
  sample_keys-Runs s c nodes now [] m j h = h
  sample_keys-Runs s c nodes now (key ∷ keys) m j h =
      sample_keys-Runs s c nodes now keys _ j (one (sample_nodes ask s.cluster c key nodes []))
    where
      one :
          (o : Option (GoMap NodeState))
          → Runs (
              history_of
                (elim o [ none ↦ m | some states ↦ (record_snapshot m c key now states).1 ])
                j)
      one none = h
      one (some states) = record_snapshot-Runs m c key now states j h

  sampled-Runs :
      (s : Service Float) (c : String) (now : ℕ) (o : Option SessionSnapshot)
      (l : Option (List (Node Float))) (j : String)
      → Runs (history_of s.metrics j)
      → Runs (history_of (sampled ask s c now o l) j)
  unfolding sampled
  sampled-Runs s c now none l j h = h
  sampled-Runs s c now (some session) none j h = h
  sampled-Runs s c now (some session) (some nodes) j h =
      sample_keys-Runs s c nodes now (if length nodes =ℕ= 0 then [] else session.tracked_keys)
        s.metrics j h

  -- Sampling keeps the running session and all counters.
  sample-Runs :
      (s : Service Float) (c : String) (now : ℕ) (j : String)
      → Runs (history_of s.metrics j)
      → Runs (history_of (sample_all_tracked_keys ask s c now).metrics j)
  unfolding sample_all_tracked_keys
  sample-Runs s c now j h = elim (Bool-cases (is_active s.metrics c)) [
    | inl e ↦ rw e (sampled-Runs s c now (get_session s.metrics c) (get_nodes s.cluster c) j h)
    | inr e ↦ rw e h
  ]

  stats_now-sample :
      (s : Service Float) (c : String) (now : ℕ) (j : String)
      → stats_now (sample_all_tracked_keys ask s c now) j ≡ stats_now s j
  unfolding sample_all_tracked_keys stats_now
  stats_now-sample s c now j = elim (Bool-cases (is_active s.metrics c)) [
    | inl e ↦ rw e refl
    | inr e ↦ rw e refl
  ]

  counter-sample :
      (s : Service Float) (c : String) (now : ℕ) (j : String)
      → (counter (sample_all_tracked_keys ask s c now).total_rpcs j ≡ counter s.total_rpcs j)
        × (counter (sample_all_tracked_keys ask s c now).total_writes j ≡ counter s.total_writes j)
  unfolding sample_all_tracked_keys
  counter-sample s c now j = elim (Bool-cases (is_active s.metrics c)) [
    | inl e ↦ rw e (refl, refl)
    | inr e ↦ rw e (refl, refl)
  ]

change_running-running :
    (e : SessionError) (m : SessionManager) (c : String) (f : Session → Session) (x : Session)
    → last? (history_of m c) ≡ some x
    → is_running x ≡ true
    → change_running e m c f ≡ (none, insert m c (change_last f (history_of m c)))
unfolding change_running
change_running-running e m c f x l r = ground arith

with_stats-running :
    (stats : SessionStats) (x : Session) → is_running (with_stats stats x) ≡ is_running x
unfolding with_stats is_running
with_stats-running stats x = refl

last-insert :
    (m : SessionManager) (c : String) (f : Session → Session) (x : Session)
    → last? (history_of m c) ≡ some x
    → last? (history_of (insert m c (change_last f (history_of m c))) c) ≡ some (f x)
last-insert m c f x l =
    ap last? (history_of-insert m c (change_last f (history_of m c)) c ∙ rw (eq_refl c) refl)
    ∙ (last?-change_last f (history_of m c) ∙ rw l refl)

update-last :
    (m : SessionManager) (c : String) (stats : SessionStats) (x : Session)
    → last? (history_of m c) ≡ some x
    → last? (history_of (update_session_stats m c stats) c) ≡ some (with_stats stats x)
unfolding update_session_stats last?
update-last m c stats x l =
    let b : ltb 0 (length (history_of m c)) ≡ true = filled (history_of m c) l in
    rw b (last-insert m c (with_stats stats) x l)
  where
    filled : (h : List Session) → last? h ≡ some x → ltb 0 (length h) ≡ true
    filled [] q = absurd (ground (arith))
    filled (y ∷ h) q = ground arith

module _ (m : SessionManager) (c : String) (trimmed : trim_space c ≡ c) (x : Session)
    (l : last? (history_of m c) ≡ some x) where
  stop-running :
      (now : ℕ)
      → c ≢ ""
      → is_running x ≡ true
      → stop m c now ≡ (none, insert m c (change_last (stopped now) (history_of m c)))
  unfolding stop
  stop-running now filled run =
      let e : (c == "") ≡ false = ground (arith, eq_iff c "", filled) in
      rw trimmed (rw e (change_running-running already_stopped m c (stopped now) x l run))

  get_session-last : get_session m c ≡ some (session_snapshot x)
  unfolding get_session
  get_session-last = ground (arith)

  compute_all_results-last : compute_all_results m c ≡ some (session_results x)
  unfolding compute_all_results
  compute_all_results-last = ground arith

module _ {Float : Type 0} (s : Service Float) (c : String) (trimmed : trim_space c ≡ c)
    (x : Session) (l : last? (history_of s.metrics c) ≡ some x) where
  get_metrics_snapshot-last :
      (y : MetricsSnapshot) × (get_metrics_snapshot s c ≡ some y)
      × (y.cluster_stats ≡ stats_now s c)
  unfolding get_metrics_snapshot
  get_metrics_snapshot-last = (
    record {
      active = is_active s.metrics c;
      cluster_id = c;
      started_at = (session_snapshot x).started_at;
      stopped_at = (session_snapshot x).stopped_at;
      tracked_keys = (session_snapshot x).tracked_keys;
      results = session_results x;
      cluster_stats = stats_now s c;
    },
    ground (
      arith,
      get_session-last s.metrics c trimmed x l,
      compute_all_results-last s.metrics c trimmed x l,
    ),
    refl,
  )

module _ {Float : Type 0} (ask : String → ℤ → String → String → GetAnswer) where
  -- The state that StopMetricsSession hands to Stop.
  sealed-last :
      (s : Service Float) (c : String) (sampled_at : ℕ)
      → last_running (history_of s.metrics c) ≡ true
      → (x : Session) × (last? (history_of (sealed ask s c sampled_at).metrics c)
          ≡ some (with_stats (stats_now s c) x))
        × (is_running x ≡ true)
  unfolding sealed
  sealed-last s c sampled_at r =
      let (x, l, run) =
        sample-Runs ask s c sampled_at c (Runs-of_last_running (history_of s.metrics c) r) in
      let s' = sample_all_tracked_keys ask s c sampled_at in
      (
        x,
        update-last s'.metrics c (stats_now s' c) x l
            ∙ ap (λ z. some (with_stats z x)) (stats_now-sample ask s c sampled_at c),
        run,
      )

  -- The state after Stop.
  stopped_state : Service Float → String → ℕ → ℕ → Service Float
  stopped_state s c sampled_at now =
      let s' = sealed ask s c sampled_at in
      record s' {
        metrics = insert s'.metrics c (change_last (stopped now) (history_of s'.metrics c));
      }

  stop_metrics_session-runs :
      (s : Service Float) (c : String) (sampled_at now : ℕ)
      → trim_space c ≡ c
      → c ≢ ""
      → last_running (history_of s.metrics c) ≡ true
      → stop_metrics_session ask s c sampled_at now ≡ (
        inr (get_metrics_snapshot (stopped_state s c sampled_at now) c),
        stopped_state s c sampled_at now,
      )
  unfolding stop_metrics_session stop_with stopped_state
  stop_metrics_session-runs s c sampled_at now trimmed filled r =
      let (x, l, run) = sealed-last s c sampled_at r in
      rw trimmed (
        rw
          (stop-running (sealed ask s c sampled_at).metrics c trimmed (with_stats (stats_now s c) x)
            l now filled (with_stats-running (stats_now s c) x ∙ run))
          refl)

  stopped_state-last :
      (s : Service Float) (c : String) (sampled_at now : ℕ)
      → last_running (history_of s.metrics c) ≡ true
      → (x : Session) × (last? (history_of (stopped_state s c sampled_at now).metrics c)
          ≡ some (stopped now (with_stats (stats_now s c) x)))
  unfolding stopped_state
  stopped_state-last s c sampled_at now r =
      let (x, l, run) = sealed-last s c sampled_at r in
      (
        x,
        last-insert (sealed ask s c sampled_at).metrics c (stopped now)
            (with_stats (stats_now s c) x) l,
      )

  stopped_state-stats :
      (s : Service Float) (c : String) (sampled_at now : ℕ)
      → counter s.total_rpcs c < uint64_size
      → counter s.total_writes c < uint64_size
      → ((stats_now (stopped_state s c sampled_at now) c).total_rpcs ≡ counter s.total_rpcs c)
        × ((stats_now (stopped_state s c sampled_at now) c).total_writes ≡ counter s.total_writes c)
  unfolding stopped_state stats_now sealed since_baseline baseline_of
  stopped_state-stats s c sampled_at now b b' =
      let (e, e') = counter-sample ask s c sampled_at c in
      let d = at-delete (sample_all_tracked_keys ask s c sampled_at).session_baselines c c in
      (ground (arith, d, eq_refl c), ground (arith, d, eq_refl c))

  -- For an active session of a cluster whose id has no blanks around it, StopMetricsSession
  -- succeeds and seals in the session what its counters grew by since it started; but the
  -- statistics that it returns are the cluster's counters of all time, where these are uint64.
  pub stop_metrics_session-stats :
      (s : Service Float) (c : String) (sampled_at now : ℕ)
      → trim_space c ≡ c
      → c ≢ ""
      → last_running (history_of s.metrics c) ≡ true
      → counter s.total_rpcs c < uint64_size
      → counter s.total_writes c < uint64_size
      → let (result, s') = stop_metrics_session ask s c sampled_at now in
        (snap : SessionSnapshot) × (get_session s'.metrics c ≡ some snap)
        × (snap.stats ≡ stats_now s c)
        × (snap.stopped_at ≡ some now)
        × (returned : MetricsSnapshot) × (result ≡ inr (some returned))
        × (returned.cluster_stats.total_rpcs ≡ counter s.total_rpcs c)
        × (returned.cluster_stats.total_writes ≡ counter s.total_writes c)
  unfolding session_snapshot with_stats stopped
  stop_metrics_session-stats s c sampled_at now trimmed filled r b b' =
      let (x, l) = stopped_state-last s c sampled_at now r in
      let t = stopped_state s c sampled_at now in
      let (y, f, g) =
        get_metrics_snapshot-last t c trimmed (stopped now (with_stats (stats_now s c) x)) l in
      let (e, e') = stopped_state-stats s c sampled_at now b b' in
      rw (stop_metrics_session-runs s c sampled_at now trimmed filled r) (
        session_snapshot (stopped now (with_stats (stats_now s c) x)),
        get_session-last t.metrics c trimmed (stopped now (with_stats (stats_now s c) x)) l,
        refl,
        refl,
        y,
        ap inr f,
        ap (λ z. z.total_rpcs) g ∙ e,
        ap (λ z. z.total_writes) g ∙ e',
      )
