-- ===== src/Metrics/Sessions/Reach.antt =====
-- The states that the operations of the session manager lead to.
use mathlib.Core.Path.{subst}
use faultlab.Prelude.{
  ℕ, ◌≡◌, ◌≢◌, ◌⊎◌, inl, inr, refl, sym, ◌∙◌, String, true, false, ◌&&◌, none, List, ltb, GoMap, at,
  insert, at-insert, ◌==◌, eq_iff, trim_space, length, Bool-cases, arith,
}
use faultlab.Metrics.{NodeState, TimelineEvent}
use faultlab.Metrics.Sessions.{
  Session, SessionStats, SessionManager, SessionError, already_stopped, is_stopped, history_of,
  add_key, ensure, stopped, with_stats, last_running, change_last, started, new_session_manager,
  start, change_running, stop, update_session_stats, track_key, tracked, record_timeline_event,
  with_event, record_snapshot, with_snapshot,
}
use faultlab.Metrics.Sessions.History.{
  IsSession, IsHistory, has_key, has_key-add_key, at-ensure, change_last-IsHistory,
  started-IsHistory, history_of-insert, history_of-change_running,
}

-- One operation. Failed operations count.
pub data Step (m : SessionManager) : SessionManager → Type 0 where
  starting : (c : String) (now : ℕ) → Step m (start m c now).1
  stopping : (c : String) (now : ℕ) → Step m (stop m c now).1
  updating : (c : String) (stats : SessionStats) → Step m (update_session_stats m c stats)
  tracking : (c key : String) → Step m (track_key m c key).1
  logging :
      (c key : String) (observed_at : ℕ) (event : TimelineEvent)
      → Step m (record_timeline_event m c key observed_at event).1
  sampling :
      (c key : String) (observed_at : ℕ) (nodes : GoMap NodeState)
      → Step m (record_snapshot m c key observed_at nodes).1

-- The states since NewSessionManager.
pub data Reachable : SessionManager → Type 0 where
  created : Reachable new_session_manager
  later : {m m' : SessionManager} → Reachable m → Step m m' → Reachable m'

abbrev Sound : SessionManager → Type 0
Sound m = (c : String) → IsHistory c (history_of m c)

module _ {ℓ} {A : Type ℓ} (m : GoMap (List A)) (keys : List String) (key k : String)
    (before : at m k ≢ none → has_key keys k ≡ true) where
  kept_tracked : at m k ≢ none → has_key (add_key keys key) k ≡ true
  kept_tracked h = ground (arith, has_key-add_key keys key k, before)

  ensured_tracked : at (ensure m key) k ≢ none → has_key (add_key keys key) k ≡ true
  ensured_tracked h = ground (arith, at-ensure m key k, has_key-add_key keys key k, before)

  stored_tracked :
      (l : List A) → at (insert (ensure m key) key l) k ≢ none → has_key (add_key keys key) k ≡ true
  stored_tracked l h = ground (
    arith,
    at-insert (ensure m key) key l k,
    at-ensure m key k,
    has_key-add_key keys key k,
    before,
  )

tracked-IsSession : (c key : String) (s : Session) → IsSession c s → IsSession c (tracked key s)
unfolding tracked
tracked-IsSession c key s v = record {
  owned = v.owned;
  snapshots_tracked = λ k. ensured_tracked s.snapshots s.tracked_keys key k (v.snapshots_tracked k);
  timeline_tracked = λ k. ensured_tracked s.timeline s.tracked_keys key k (v.timeline_tracked k);
}

with_event-IsSession :
    (c key : String) (now : ℕ) (event : TimelineEvent) (s : Session)
    → IsSession c s
    → IsSession c (with_event key now event s)
unfolding with_event
with_event-IsSession c key now event s v = record {
  owned = v.owned;
  snapshots_tracked = λ k. kept_tracked s.snapshots s.tracked_keys key k (v.snapshots_tracked k);
  timeline_tracked = λ k. stored_tracked s.timeline s.tracked_keys key k (v.timeline_tracked k) _;
}

with_snapshot-IsSession :
    (c key : String) (now : ℕ) (nodes : GoMap NodeState) (s : Session)
    → IsSession c s
    → IsSession c (with_snapshot key now nodes s)
unfolding with_snapshot
with_snapshot-IsSession c key now nodes s v = record {
  owned = v.owned;
  snapshots_tracked =
      λ k. stored_tracked s.snapshots s.tracked_keys key k (v.snapshots_tracked k) _;
  timeline_tracked = λ k. kept_tracked s.timeline s.tracked_keys key k (v.timeline_tracked k);
}

pub history_of-start :
    (m : SessionManager) (c : String) (now : ℕ) (j : String)
    → (history_of (start m c now).1 j ≡ history_of m j)
      ⊎ ((trim_space c ≡ j)
          × (last_running (history_of m j) ≡ false)
          × (history_of (start m c now).1 j ≡ started j now (history_of m j)))
unfolding start
history_of-start m c now j = elim (Bool-cases (trim_space c == "")) [
  | inl e ↦ rw e (inl refl)
  | inr e ↦ elim (Bool-cases (last_running (history_of m (trim_space c)))) [
    | inl r ↦ rw (e, r) (inl refl)
    | inr r ↦ elim (Bool-cases (trim_space c == j)) [
      | inl same ↦
          let p = (eq_iff (trim_space c) j).0 same in
          inr (
            p,
            subst (λ z. last_running (history_of m z) ≡ false) p r,
            ground (
              arith,
              history_of-insert m (trim_space c)
                  (started (trim_space c) now (history_of m (trim_space c))) j,
            ),
          )
      | inr other ↦ inl (
          ground (
            arith,
            history_of-insert m (trim_space c)
                (started (trim_space c) now (history_of m (trim_space c))) j,
          ))
    ]
  ]
]

change_running-Sound :
    (e : SessionError) (m : SessionManager) (c : String) (f : Session → Session)
    → ((s : Session) → IsSession c s → IsSession c (f s))
    → Sound m
    → Sound (change_running e m c f).1
change_running-Sound e m c f k v j = elim (Bool-cases ((c == j) && last_running (history_of m c))) [
  | inl b ↦
      let p = (eq_iff c j).0 (ground arith) in
      subst (λ h. IsHistory j h) (sym (history_of-change_running e m c f j ∙ rw b refl))
        (subst (λ z. IsHistory z (change_last f (history_of m c))) p
          (change_last-IsHistory c f (history_of m c) k (v c)))
  | inr b ↦ subst (λ h. IsHistory j h) (sym (history_of-change_running e m c f j ∙ rw b refl)) (v j)
]

start-Sound : (m : SessionManager) (c : String) (now : ℕ) → Sound m → Sound (start m c now).1
start-Sound m c now v j = elim (history_of-start m c now j) [
  | inl e ↦ subst (λ h. IsHistory j h) (sym e) (v j)
  | inr (p, r, e) ↦
      subst (λ h. IsHistory j h) (sym e) (started-IsHistory j now (history_of m j) (v j) r)
]

stopped-IsSession :
    (c : String) (now : ℕ) (s : Session) → IsSession c s → IsSession c (stopped now s)
unfolding stopped
stopped-IsSession c now s v = record {
  owned = v.owned;
  snapshots_tracked = v.snapshots_tracked;
  timeline_tracked = v.timeline_tracked;
}

with_stats-IsSession :
    (c : String) (stats : SessionStats) (s : Session)
    → IsSession c s
    → IsSession c (with_stats stats s)
unfolding with_stats
with_stats-IsSession c stats s v = record {
  owned = v.owned;
  snapshots_tracked = v.snapshots_tracked;
  timeline_tracked = v.timeline_tracked;
}

stop-Sound : (m : SessionManager) (c : String) (now : ℕ) → Sound m → Sound (stop m c now).1
unfolding stop
stop-Sound m c now v j = elim (Bool-cases (trim_space c == "")) [
  | inl e ↦ rw e (v j)
  | inr e ↦ rw e (
      change_running-Sound already_stopped m (trim_space c) (stopped now)
        (stopped-IsSession (trim_space c) now) v j)
]

insert-Sound :
    (m : SessionManager) (c : String) (h : List Session)
    → IsHistory c h
    → Sound m
    → Sound (insert m c h)
insert-Sound m c h w v j = elim (Bool-cases (c == j)) [
  | inl e ↦
      subst (λ x. IsHistory j x) (sym (history_of-insert m c h j ∙ rw e refl))
        (subst (λ z. IsHistory z h) ((eq_iff c j).0 e) w)
  | inr e ↦ subst (λ x. IsHistory j x) (sym (history_of-insert m c h j ∙ rw e refl)) (v j)
]

update_session_stats-Sound :
    (m : SessionManager) (c : String) (stats : SessionStats)
    → Sound m
    → Sound (update_session_stats m c stats)
unfolding update_session_stats
update_session_stats-Sound m c stats v j = elim (Bool-cases (ltb 0 (length (history_of m c)))) [
  | inl b ↦ rw b (
      insert-Sound m c (change_last (with_stats stats) (history_of m c))
        (change_last-IsHistory c (with_stats stats) (history_of m c) (with_stats-IsSession c stats)
          (v c))
        v j)
  | inr b ↦ rw b (v j)
]

Step-Sound : {m m' : SessionManager} → Step m m' → Sound m → Sound m'
unfolding track_key record_timeline_event record_snapshot
Step-Sound {m = m} (starting c now) v = start-Sound m c now v
Step-Sound {m = m} (stopping c now) v = stop-Sound m c now v
Step-Sound {m = m} (updating c stats) v = update_session_stats-Sound m c stats v
Step-Sound {m = m} (tracking c key) v =
    change_running-Sound is_stopped m (trim_space c) (tracked (trim_space key))
      (tracked-IsSession (trim_space c) (trim_space key)) v
Step-Sound {m = m} (logging c key now event) v =
    change_running-Sound is_stopped m (trim_space c) (with_event (trim_space key) now event)
      (with_event-IsSession (trim_space c) (trim_space key) now event) v
Step-Sound {m = m} (sampling c key now nodes) v =
    change_running-Sound is_stopped m (trim_space c) (with_snapshot (trim_space key) now nodes)
      (with_snapshot-IsSession (trim_space c) (trim_space key) now nodes) v

-- In every state that the operations lead to, a cluster has at most 50 sessions, all but the last
-- are stopped, and each session is the cluster's own and tracks every key for which it has
-- snapshots or events.
pub Reachable-IsHistory :
    (m : SessionManager) → Reachable m → (c : String) → IsHistory c (history_of m c)
unfolding history_of new_session_manager at
Reachable-IsHistory _ created c = record { bounded = omega arith; sealed = tt; sessions = tt }
Reachable-IsHistory _ (later {m = m} r s) c = Step-Sound s (Reachable-IsHistory m r) c
