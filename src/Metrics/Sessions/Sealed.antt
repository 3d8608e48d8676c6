-- ===== src/Metrics/Sessions/Sealed.antt =====
-- What a stopped session goes through afterwards.
use mathlib.Core.Path.{subst}
use faultlab.Prelude.{
  ℕ, ◌≤◌, ◌≡◌, ◌⊎◌, inl, inr, refl, sym, ◌∙◌, leb, ltb, String, true, false, ◌&&◌, List, [], ◌∷◌,
  ◌++◌ as append, insert, ◌==◌, eq_iff, trim_space, length, All, Bool-cases, arith,
}
use faultlab.Metrics.{last?}
use faultlab.Metrics.Sessions.{
  Session, SessionStats, SessionManager, SessionError, already_stopped, is_stopped, history_of,
  is_running, stopped, with_stats, last_running, change_last, history_cap, drop_oldest, new_session,
  started, change_running, stop, update_session_stats, track_key, record_timeline_event,
  record_snapshot,
}
use faultlab.Metrics.Sessions.History.{IsKept, history_of-insert, history_of-change_running}
use faultlab.Metrics.Sessions.Reach.{
  Step, starting, stopping, updating, tracking, logging, sampling, history_of-start,
}

-- Every stopped session of the first history is in the second, but for its stats.
abbrev pub Keeps : List Session → List Session → Type 0
Keeps h h' = All (λ s. is_running s ≡ false → IsKept h' s) h

All-map {ℓ} :
    {A : Type ℓ} (P Q : A → Type 0) (xs : List A) → ((x : A) → P x → Q x) → All P xs → All Q xs
All-map P Q [] k h = tt
All-map P Q (x ∷ xs) k (p, h) = (k x p, All-map P Q xs k h)

Keeps-cons : (h h' : List Session) (x : Session) → Keeps h h' → Keeps h (x ∷ h')
Keeps-cons h h' x = All-map _ _ h (λ s k r. inr (k r))

Keeps-self : (h : List Session) → Keeps h h
Keeps-self [] = tt
Keeps-self (s ∷ h) = (λ r. inl refl, Keeps-cons h h s (Keeps-self h))

Keeps-append : (h ys : List Session) → Keeps h (append h ys)
Keeps-append [] ys = tt
Keeps-append (s ∷ h) ys = (λ r. inl refl, Keeps-cons h (append h ys) s (Keeps-append h ys))

-- A change of the last session keeps the stopped ones, where it is running or only its stats change.
Keeps-change_last :
    (f : Session → Session) (h : List Session)
    → (last_running h ≡ true) ⊎ ((t : Session) → record (f t) { stats = t.stats } ≡ t)
    → Keeps h (change_last f h)
unfolding change_last last_running last?
Keeps-change_last f [] k = tt
Keeps-change_last f (s ∷ []) (inl r) = (λ q. absurd (cc), tt)
Keeps-change_last f (s ∷ []) (inr k) = (λ q. inl (k s), tt)
Keeps-change_last f (s ∷ t ∷ rest) k =
    (λ r. inl refl, Keeps-cons (t ∷ rest) _ s (Keeps-change_last f (t ∷ rest) k))

Keeps-change_running :
    (e : SessionError) (m : SessionManager) (c : String) (f : Session → Session) (j : String)
    → Keeps (history_of m j) (history_of (change_running e m c f).1 j)
Keeps-change_running e m c f j = elim (Bool-cases ((c == j) && last_running (history_of m c))) [
  | inl b ↦
      let p = (eq_iff c j).0 (ground arith) in
      subst (λ h. Keeps (history_of m j) h) (sym (history_of-change_running e m c f j ∙ rw b refl))
        (subst (λ z. Keeps (history_of m z) (change_last f (history_of m c))) p
          (Keeps-change_last f (history_of m c) (inl (ground arith))))
  | inr b ↦
      subst (λ h. Keeps (history_of m j) h) (sym (history_of-change_running e m c f j ∙ rw b refl))
        (Keeps-self (history_of m j))
]

Keeps-stop :
    (m : SessionManager) (c : String) (now : ℕ) (j : String)
    → Keeps (history_of m j) (history_of (stop m c now).1 j)
unfolding stop
Keeps-stop m c now j = elim (Bool-cases (trim_space c == "")) [
  | inl e ↦ rw e (Keeps-self (history_of m j))
  | inr e ↦ rw e (Keeps-change_running already_stopped m (trim_space c) (stopped now) j)
]

with_stats-same :
    (stats : SessionStats) (t : Session) → record (with_stats stats t) { stats = t.stats } ≡ t
unfolding with_stats
with_stats-same stats t = refl

Keeps-update_session_stats :
    (m : SessionManager) (c : String) (stats : SessionStats) (j : String)
    → Keeps (history_of m j) (history_of (update_session_stats m c stats) j)
unfolding update_session_stats
Keeps-update_session_stats m c stats j = elim (Bool-cases (ltb 0 (length (history_of m c)))) [
  | inl b ↦ rw b (
      changed (change_last (with_stats stats) (history_of m c))
        (Keeps-change_last (with_stats stats) (history_of m c) (inr (with_stats-same stats))))
  | inr b ↦ rw b (Keeps-self (history_of m j))
]
  where
    changed :
        (h : List Session)
        → Keeps (history_of m c) h
        → Keeps (history_of m j) (history_of (insert m c h) j)
    changed h k = elim (Bool-cases (c == j)) [
      | inl e ↦
          subst (λ x. Keeps (history_of m j) x) (sym (history_of-insert m c h j ∙ rw e refl))
            (subst (λ z. Keeps (history_of m z) h) ((eq_iff c j).0 e) k)
      | inr e ↦
          subst (λ x. Keeps (history_of m j) x) (sym (history_of-insert m c h j ∙ rw e refl))
            (Keeps-self (history_of m j))
    ]

Keeps-started :
    (c : String) (now : ℕ) (h : List Session)
    → Keeps h (started c now h)
      ⊎ ((history_cap ≤ length h) × Keeps (drop_oldest h) (started c now h))
unfolding started
Keeps-started c now h = elim (Bool-cases (leb history_cap (length h))) [
  | inl b ↦ rw b (inr (ground arith, Keeps-append (drop_oldest h) (new_session c now ∷ [])))
  | inr b ↦ rw b (inl (Keeps-append h (new_session c now ∷ [])))
]

-- Whatever operation follows, a stopped session stays in the history of its cluster and nothing of
-- it but its stats changes, apart from the oldest session of a cluster that has 50 sessions or more.
pub Step-Keeps :
    {m m' : SessionManager} (s : Step m m') (c : String)
    → Keeps (history_of m c) (history_of m' c)
      ⊎ ((history_cap ≤ length (history_of m c))
          × Keeps (drop_oldest (history_of m c)) (history_of m' c))
unfolding track_key record_timeline_event record_snapshot
Step-Keeps {m = m} (starting c now) j = elim (history_of-start m c now j) [
  | inl e ↦ inl (subst (λ h. Keeps (history_of m j) h) (sym e) (Keeps-self (history_of m j)))
  | inr (p, r, e) ↦
      subst
        (λ h.
          Keeps (history_of m j) h
          ⊎ ((history_cap ≤ length (history_of m j)) × Keeps (drop_oldest (history_of m j)) h))
        (sym e) (Keeps-started j now (history_of m j))
]
Step-Keeps {m = m} (stopping c now) j = inl (Keeps-stop m c now j)
Step-Keeps {m = m} (updating c stats) j = inl (Keeps-update_session_stats m c stats j)
Step-Keeps {m = m} (tracking c key) j = inl (Keeps-change_running is_stopped m (trim_space c) _ j)
Step-Keeps {m = m} (logging c key now event) j =
    inl (Keeps-change_running is_stopped m (trim_space c) _ j)
Step-Keeps {m = m} (sampling c key now nodes) j =
    inl (Keeps-change_running is_stopped m (trim_space c) _ j)
