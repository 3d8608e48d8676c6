-- ===== src/Metrics/Sessions/History.antt =====
-- What the operations do to the history of a cluster.
use faultlab.Prelude.{
  ℕ, suc, ◌≤◌, ◌<◌, ◌≡◌, ◌≢◌, inl, inr, refl, ap, leb, String, Bool, true, false, ◌&&◌, none, some,
  List, [], ◌∷◌, ◌++◌ as append, if◌then◌else◌, GoMap, at, insert, at-insert, ◌==◌, eq_iff, length,
  length-append, All, Any, Bool-cases, arith,
}
use faultlab.Metrics.{last?}
use faultlab.Metrics.Sessions.{
  Session, SessionManager, SessionError, history_of, list_at, add_key, ensure, is_running,
  last_running, change_last, history_cap, drop_oldest, new_session, started, change_running,
}

pub has_key : List String → String → Bool
has_key [] k = false
has_key (j ∷ keys) k = if j == k then true else has_key keys k

pub has_key-add_key :
    (keys : List String) (k j : String)
    → has_key (add_key keys k) j ≡ (if k == j then true else has_key keys j)
unfolding has_key add_key
has_key-add_key [] k j = ground arith
has_key-add_key (i ∷ keys) k j =
    ground (arith, eq_iff i k, eq_iff i j, eq_iff k j, has_key-add_key keys k j)

pub at-ensure {ℓ} :
    {A : Type ℓ} (m : GoMap (List A)) (k j : String)
    → at (ensure m k) j ≡ (if k == j then some (list_at m k) else at m j)
unfolding ensure list_at
at-ensure m k j = ground (arith, at-insert m k [] j, eq_iff k j)

-- The session is of the cluster and tracks each key that it has data for.
pub record IsSession (cluster_id : String) (s : Session) : Type 0 where
  pub owned : s.cluster_id ≡ cluster_id
  pub snapshots_tracked : (k : String) → at s.snapshots k ≢ none → has_key s.tracked_keys k ≡ true
  pub timeline_tracked : (k : String) → at s.timeline k ≢ none → has_key s.tracked_keys k ≡ true

-- All sessions but the last are stopped.
abbrev pub EarlierStopped : List Session → Type 0
EarlierStopped [] = Unit
EarlierStopped (s ∷ []) = Unit
EarlierStopped (s ∷ t ∷ rest) = (is_running s ≡ false) × EarlierStopped (t ∷ rest)

pub record IsHistory (cluster_id : String) (history : List Session) : Type 0 where
  pub bounded : length history ≤ history_cap
  pub sealed : EarlierStopped history
  pub sessions : All (IsSession cluster_id) history

-- `s` is in the history, but for its stats.
abbrev pub IsKept : List Session → Session → Type 0
IsKept history s = Any (λ (t : Session). record t { stats = s.stats } ≡ s) history

pub history_of-insert :
    (m : SessionManager) (c : String) (h : List Session) (j : String)
    → history_of (insert m c h) j ≡ (if c == j then h else history_of m j)
unfolding history_of
history_of-insert m c h j = ground (arith, at-insert m c h j)

-- The change of the running session, at every cluster.
pub history_of-change_running :
    (e : SessionError) (m : SessionManager) (c : String) (f : Session → Session) (j : String)
    → history_of (change_running e m c f).1 j ≡ (
        if (c == j) && last_running (history_of m c)
        then change_last f (history_of m c)
        else history_of m j)
unfolding change_running last_running
history_of-change_running e m c f j =
    ground (arith, history_of-insert m c (change_last f (history_of m c)) j)

length-change_last :
    (f : Session → Session) (h : List Session) → length (change_last f h) ≡ length h
unfolding change_last
length-change_last f [] = refl
length-change_last f (s ∷ []) = refl
length-change_last f (s ∷ t ∷ rest) = ap suc (length-change_last f (t ∷ rest))

EarlierStopped-change_last :
    (f : Session → Session) (h : List Session) → EarlierStopped h → EarlierStopped (change_last f h)
unfolding change_last
EarlierStopped-change_last f [] q = tt
EarlierStopped-change_last f (s ∷ []) q = tt
EarlierStopped-change_last f (s ∷ t ∷ []) q = q
EarlierStopped-change_last f (s ∷ t ∷ u ∷ rest) (q, r) =
    (q, EarlierStopped-change_last f (t ∷ u ∷ rest) r)

All-change_last :
    (P : Session → Type 0) (f : Session → Session) (h : List Session)
    → ((s : Session) → P s → P (f s))
    → All P h
    → All P (change_last f h)
unfolding change_last
All-change_last P f [] k q = tt
All-change_last P f (s ∷ []) k (q, _) = (k s q, tt)
All-change_last P f (s ∷ t ∷ rest) k (q, r) = (q, All-change_last P f (t ∷ rest) k r)

pub change_last-IsHistory :
    (c : String) (f : Session → Session) (h : List Session)
    → ((s : Session) → IsSession c s → IsSession c (f s))
    → IsHistory c h
    → IsHistory c (change_last f h)
change_last-IsHistory c f h k v = record {
  bounded = omega (arith, length-change_last f h, v.bounded);
  sealed = EarlierStopped-change_last f h v.sealed;
  sessions = All-change_last (IsSession c) f h k v.sessions;
}

EarlierStopped-append :
    (h : List Session) (s : Session)
    → EarlierStopped h
    → last_running h ≡ false
    → EarlierStopped (append h (s ∷ []))
unfolding last_running last?
EarlierStopped-append [] s q r = tt
EarlierStopped-append (x ∷ []) s q r = (r, tt)
EarlierStopped-append (x ∷ y ∷ rest) s (q, t) r = (q, EarlierStopped-append (y ∷ rest) s t r)

All-append {ℓ} :
    {A : Type ℓ} (P : A → Type 0) (xs ys : List A) → All P xs → All P ys → All P (append xs ys)
All-append P [] ys q r = r
All-append P (x ∷ xs) ys (q, t) r = (q, All-append P xs ys t r)

drop_oldest-IsHistory :
    (c : String) (h : List Session)
    → IsHistory c h
    → last_running h ≡ false
    → IsHistory c (drop_oldest h)
      × (last_running (drop_oldest h) ≡ false)
      × (length (drop_oldest h) < history_cap)
unfolding drop_oldest last_running last?
drop_oldest-IsHistory c [] v r = (v, r, omega arith)
drop_oldest-IsHistory c (s ∷ []) v r =
    (record { bounded = omega arith; sealed = tt; sessions = tt }, refl, omega arith)
drop_oldest-IsHistory c (s ∷ t ∷ rest) v r = (
  record { bounded = omega (arith, v.bounded); sealed = v.sealed.1; sessions = v.sessions.1 },
  r,
  omega (arith, v.bounded),
)

appended-IsHistory :
    (c : String) (now : ℕ) (h : List Session)
    → IsHistory c h
    → last_running h ≡ false
    → length h < history_cap
    → IsHistory c (append h (new_session c now ∷ []))
unfolding new_session at
appended-IsHistory c now h v r b = record {
  bounded = omega (arith, length-append h (new_session c now ∷ []));
  sealed = EarlierStopped-append h (new_session c now) v.sealed r;
  sessions = All-append (IsSession c) h (new_session c now ∷ []) v.sessions (fresh, tt);
}
  where
    fresh : IsSession c (new_session c now)
    fresh = record {
      owned = refl;
      snapshots_tracked = λ k q. absurd (q refl);
      timeline_tracked = λ k q. absurd (q refl);
    }

pub started-IsHistory :
    (c : String) (now : ℕ) (h : List Session)
    → IsHistory c h
    → last_running h ≡ false
    → IsHistory c (started c now h)
unfolding started
started-IsHistory c now h v r = elim (Bool-cases (leb history_cap (length h))) [
  | inl full ↦
      let (w, q, b) = drop_oldest-IsHistory c h v r in
      rw full (appended-IsHistory c now (drop_oldest h) w q b)
  | inr room ↦ rw room (appended-IsHistory c now h v r (ground arith))
]
