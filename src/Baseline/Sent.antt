-- ===== src/Baseline/Sent.antt =====
-- What Tick of the failure detector sends.
use faultlab.Prelude.{
  ◌≡◌, inl, inr, ◌∙◌, refl, ◌+◌, ◌%◌, ◌^◌, ◌<◌, ltb, String, Bool, false, not, Option, none, some,
  List, [], ◌∷◌, ◌++◌, map, ◌&&◌, ◌||◌, arith, if◌then◌else◌, ℤ, ◌=ℤ=◌, ◌=ℕ=◌, GoMap, eq_iff, ◌==◌,
  Bool-cases,
}
use faultlab.Protocol.{Codec, Envelope}
use faultlab.Gossip.Peers.{has_peer}
use faultlab.Baseline.{
  suspect, dead, MembershipEvent, BaselineProtocol, number_at, status_at, sub64, tick, check_peer,
  check_peers, membership_envelope, heartbeat_to, heartbeats, alive_peers, status_name,
}
use faultlab.Baseline.Ticks.{status_at-check_peer, number_at-check_peer, check_peer-Kept}

-- Whether the check of the peer `p` finds it suspect for longer than the limit.
abbrev pub dies : BaselineProtocol → String → Bool
dies b p =
    (status_at b.status p =ℤ= suspect)
    && ltb b.timeout_ticks (sub64 b.tick (number_at b.suspect_since p))

check_peer-dies : (b : BaselineProtocol) (q : String) → (check_peer b q).1 ≡ dies b q
unfolding check_peer
check_peer-dies b q = ground arith

-- A peer dies once.
dies-check_peer :
    (b : BaselineProtocol) (q p : String)
    → b.tick < 2 ^ 64
    → dies (check_peer b q).0 p ≡ (if q == p then false else dies b p)
dies-check_peer b q p h =
    let (e1, e2, e3, e4) = check_peer-Kept b q in
    let s = status_at-check_peer b q p in let n = number_at-check_peer b q p in ground arith

abbrev is_death : String → Option MembershipEvent → Bool
is_death p none = false
is_death p (some ev) = ev.subject == p && ev.status =ℤ= dead

module _ (json : Codec MembershipEvent) where
  open json use {Bytes, decode, decode-encode}

  -- Whether one of some envelopes tells that the node `p` is dead.
  unfoldable pub announces : String → List (Envelope Bytes) → Bool
  announces p [] = false
  announces p (e ∷ out) = is_death p (decode e.payload) || announces p out

  -- Whether one of some envelopes is a heartbeat for `p`.
  unfoldable pub beats : String → List (Envelope Bytes) → Bool
  beats p [] = false
  beats p (e ∷ out) = (e.to == p && e.trace_metadata == "BASELINE_HEARTBEAT") || beats p out

  death-read :
      (b : BaselineProtocol) (q p : String)
      → is_death p (decode (membership_envelope json b q dead).payload) ≡ (q == p)
  unfolding membership_envelope
  death-read b q p =
      rw
        (decode-encode
          record { subject = q; status = dead; incarnation = number_at b.incarnation q })
        (ground arith)

  check_peers-announces :
      (b : BaselineProtocol) (ps : List String) (p : String)
      → b.tick < 2 ^ 64
      → announces p (check_peers json b ps).1 ≡ (has_peer ps p && dies b p)
  unfolding check_peers has_peer announces
  check_peers-announces b [] p h = refl
  check_peers-announces b (q ∷ ps) p h =
      let d = check_peer-dies b q in
      let (e1, e2, e3, e4) = check_peer-Kept b q in
      let o = dies-check_peer b q p h in
      let r = check_peers-announces (check_peer b q).0 ps p (ground arith) in
      let t = death-read (check_peer b q).0 q p in ground (arith, eq_iff q p)

  announces-append :
      (p : String) (xs ys : List (Envelope Bytes))
      → announces p (xs ++ ys) ≡ (announces p xs || announces p ys)
  unfolding announces
  announces-append p [] ys = refl
  announces-append p (x ∷ xs) ys = ground (arith, announces-append p xs ys)

  beats-append :
      (p : String) (xs ys : List (Envelope Bytes)) → beats p (xs ++ ys) ≡ (beats p xs || beats p ys)
  unfolding beats
  beats-append p [] ys = refl
  beats-append p (x ∷ xs) ys = ground (arith, beats-append p xs ys)

  beats-heartbeats :
      (beat : Bytes) (node_id : String) (status : GoMap ℤ) (ps : List String) (p : String)
      → beats p (map (heartbeat_to json beat node_id) (alive_peers status ps))
        ≡ (has_peer ps p && not (status_at status p =ℤ= dead))
  unfolding heartbeat_to alive_peers has_peer beats
  beats-heartbeats beat node_id status [] p = refl
  beats-heartbeats beat node_id status (q ∷ ps) p =
      ground (arith, eq_iff q p, beats-heartbeats beat node_id status ps p)

  announces-heartbeats :
      (beat : Bytes) (node_id : String) (ps : List String) (p : String)
      → decode beat ≡ none
      → announces p (map (heartbeat_to json beat node_id) ps) ≡ false
  unfolding heartbeat_to announces
  announces-heartbeats beat node_id [] p h = refl
  announces-heartbeats beat node_id (q ∷ ps) p h = rw h (announces-heartbeats beat node_id ps p h)

  check_peers-beats :
      (b : BaselineProtocol) (ps : List String) (p : String)
      → beats p (check_peers json b ps).1 ≡ false
  unfolding check_peers beats membership_envelope status_name
  check_peers-beats b [] p = refl
  check_peers-beats b (q ∷ ps) p = ground (arith, check_peers-beats (check_peer b q).0 ps p)

  due_beats :
      (beat : Bytes) (b : BaselineProtocol) (p : String)
      → beats p (heartbeats json beat b) ≡ (
          (b.tick % b.heartbeat_interval =ℕ= 0)
          && (has_peer b.peers p && not (status_at b.status p =ℤ= dead)))
  unfolding heartbeats
  due_beats beat b p = elim (Bool-cases (b.tick % b.heartbeat_interval =ℕ= 0)) [
    | inl e ↦ rw e (beats-heartbeats beat b.node_id b.status b.peers p)
    | inr e ↦ rw e (unfold beats in refl)
  ]

  due_announces :
      (beat : Bytes) (b : BaselineProtocol) (p : String)
      → decode beat ≡ none
      → announces p (heartbeats json beat b) ≡ false
  unfolding heartbeats
  due_announces beat b p h = elim (Bool-cases (b.tick % b.heartbeat_interval =ℕ= 0)) [
    | inl e ↦ rw e (announces-heartbeats beat b.node_id (alive_peers b.status b.peers) p h)
    | inr e ↦ rw e (unfold announces in refl)
  ]

  -- Tick sends a heartbeat to exactly the peers that are not dead, on the ticks that the interval
  -- divides, and tells of a death exactly when a suspect peer's time is over. That a heartbeat's
  -- payload is no membership event is a hypothesis.
  pub tick-sends_to :
      (beat : Bytes) (b : BaselineProtocol) (p : String)
      → decode beat ≡ none
      → let counted = record b { tick = (b.tick + 1) % 2 ^ 64 } in
        let out = (tick json beat b).1 in
        (beats p out ≡ (
          (counted.tick % b.heartbeat_interval =ℕ= 0)
          && (has_peer b.peers p && not (status_at b.status p =ℤ= dead))))
        × (announces p out ≡ (has_peer b.peers p && dies counted p))
  unfolding tick
  tick-sends_to beat b p h =
      let counted = record b { tick = (b.tick + 1) % 2 ^ 64 } in
      let told = (check_peers json counted b.peers).1 in
      (
        beats-append p (heartbeats json beat counted) told
            ∙ ground (arith, due_beats beat counted p, check_peers-beats counted b.peers p),
        announces-append p (heartbeats json beat counted) told
            ∙ ground (
              arith,
              due_announces beat counted p h,
              check_peers-announces counted b.peers p (omega arith),
            ),
      )
