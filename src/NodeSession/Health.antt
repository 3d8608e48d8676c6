-- ===== src/NodeSession/Health.antt =====
-- The health of a peer under each operation of the session.
use faultlab.Prelude.{
  pos, inc64, max_int64, ltb_ℤ, ◌=ℤ=◌, ◌<◌, ◌≤◌, ℕ, zero, suc, ◌≡◌, refl, ap, ◌∙◌, String, Bool,
  true, false, not, ◌&&◌, ◌||◌, Option, none, some, [], ◌∷◌, if◌then◌else◌, GoMap, at, IsMap, arith,
}
use faultlab.Protocol.{Envelope}
use faultlab.Fault.{Decision}
use faultlab.NodeSession.{
  is_positive, TransportHealth, peer_alive, peer_suspect, peer_dead, PeerState, NodeSession,
  Network, should_dial, update_success, update_failure, pinged, probe_peer, probe_peers,
  send_envelope, send_connected, send_decided,
}

-- The health that follows from the failures since the last success.
abbrev pub health_by : ℕ → Option ℕ → TransportHealth
health_by zero none = peer_suspect
health_by zero (some t) = peer_alive
health_by (suc zero) success = peer_suspect
health_by (suc (suc n)) success = peer_dead

-- The peer stands under its own id, and its health follows from its failures, of which there are at
-- most n.
pub record IsPeer (n : ℕ) (id : String) (ps : PeerState) : Type 0 where
  pub own_id : ps.id ≡ id
  pub failures : ℕ
  pub counted : ps.fail_count ≡ pos failures
  pub bounded : failures ≤ n
  pub healthy : ps.health ≡ health_by failures ps.last_success

pub weaken-IsPeer : (n : ℕ) (id : String) (ps : PeerState) → IsPeer n id ps → IsPeer (suc n) id ps
weaken-IsPeer n id ps v = record {
  own_id = v.own_id;
  failures = v.failures;
  counted = v.counted;
  bounded = omega (arith, v.bounded);
  healthy = v.healthy;
}

update_success-IsPeer :
    (n now : ℕ) (id : String) (ps : PeerState)
    → IsPeer n id ps
    → IsPeer (suc n) id (update_success now ps)
unfolding update_success
update_success-IsPeer n now id ps v = record {
  own_id = v.own_id;
  failures = 0;
  counted = refl;
  bounded = omega arith;
  healthy = refl;
}

inc64-pos : (f : ℕ) → f < max_int64 → inc64 (pos f) ≡ pos (suc f)
unfolding inc64
inc64-pos f h = ground arith

health_after_failure :
    (f : ℕ) (s : Option ℕ) (old : TransportHealth)
    → (if pos (suc f) =ℤ= pos 1
        then peer_suspect
        else if not (ltb_ℤ (pos (suc f)) (pos 2))
        then peer_dead
        else old)
      ≡ health_by (suc f) s
health_after_failure zero s old = ground arith
health_after_failure (suc f) s old = ground arith

update_failure-IsPeer :
    (n : ℕ) (id : String) (ps : PeerState)
    → n < max_int64
    → IsPeer n id ps
    → IsPeer (suc n) id (update_failure ps)
unfolding update_failure
update_failure-IsPeer n id ps room v =
    let next : inc64 ps.fail_count ≡ pos (suc v.failures) =
      ap inc64 v.counted ∙ inc64-pos v.failures (omega (arith, v.bounded)) in
    record {
      own_id = v.own_id;
      failures = suc v.failures;
      counted = next;
      bounded = omega (arith, v.bounded);
      healthy = rw next (health_after_failure v.failures ps.last_success ps.health);
    }

connected-IsPeer :
    (n : ℕ) (id : String) (ps : PeerState)
    → IsPeer n id ps
    → IsPeer n id (record ps { connected = true })
connected-IsPeer n id ps v = record {
  own_id = v.own_id;
  failures = v.failures;
  counted = v.counted;
  bounded = v.bounded;
  healthy = v.healthy;
}

either-IsPeer :
    {Result : Type 0} (n : ℕ) (id : String) (b : Bool) (x y : Result × PeerState)
    → IsPeer n id x.1
    → IsPeer n id y.1
    → IsPeer n id (if b then x else y).1
either-IsPeer n id true x y v w = v
either-IsPeer n id false x y v w = w

if-IsPeer :
    (n : ℕ) (id : String) (b : Bool) (x y : PeerState)
    → IsPeer n id x
    → IsPeer n id y
    → IsPeer n id (if b then x else y)
if-IsPeer n id true x y v w = v
if-IsPeer n id false x y v w = w

pinged-IsPeer :
    (net : Network) (n now : ℕ) (id : String) (ps : PeerState)
    → n < max_int64
    → IsPeer n id ps
    → IsPeer (suc n) id (pinged net now ps)
unfolding pinged
pinged-IsPeer net n now id ps room v =
    if-IsPeer (suc n) id net.answers _ _ (update_success-IsPeer n now id ps v)
      (update_failure-IsPeer n id ps room v)

probe_peer-IsPeer :
    (self : String) (net : Network) (n now : ℕ) (id : String) (ps : PeerState)
    → n < max_int64
    → IsPeer n id ps
    → IsPeer (suc n) id (probe_peer self net now ps)
unfolding probe_peer
probe_peer-IsPeer self net n now id ps room v =
    let dialed =
      pinged-IsPeer net n now id (record ps { connected = true }) room
        (connected-IsPeer n id ps v) in
    let tried = if-IsPeer (suc n) id net.dials _ _ dialed (update_failure-IsPeer n id ps room v) in
    let probed =
      if-IsPeer (suc n) id ps.connected _ _ (pinged-IsPeer net n now id ps room v) tried in
    if-IsPeer (suc n) id (not (should_dial self ps.id)) _ _ (weaken-IsPeer n id ps v) probed

module _ {Bytes : Type 0} (ns : NodeSession) (env : Envelope Bytes) (net : Network) (now n : ℕ)
    (room : n < max_int64) where
  send_envelope-IsPeer :
      (id : String) (ps : PeerState)
      → IsPeer n id ps
      → IsPeer (suc n) id (send_envelope ns env net now ps).1
  unfolding send_envelope
  send_envelope-IsPeer id ps v =
      either-IsPeer (suc n) id net.answers _ _ (update_success-IsPeer n now id ps v)
        (update_failure-IsPeer n id ps room v)

  send_connected-IsPeer :
      (id : String) (ps : PeerState)
      → IsPeer n id ps
      → IsPeer (suc n) id (send_connected ns env net now ps).1
  unfolding send_connected
  send_connected-IsPeer id ps v =
      let up = record ps { connected = true } in
      let c = connected-IsPeer n id ps v in
      let shaken =
        either-IsPeer (suc n) id (not net.shakes) _ _ (weaken-IsPeer n id up c)
          (send_envelope-IsPeer id up c) in
      let dialed = either-IsPeer (suc n) id (not net.dials) _ _ (weaken-IsPeer n id ps v) shaken in
      either-IsPeer (suc n) id ps.connected _ _ (send_envelope-IsPeer id ps v) dialed

  pub send_decided-IsPeer :
      (decision : Decision) (cut_short : Bool) (id : String) (ps : PeerState)
      → IsPeer n id ps
      → IsPeer (suc n) id (send_decided ns env decision cut_short net now ps).1
  unfolding send_decided
  send_decided-IsPeer decision cut_short id ps v =
      let kept = weaken-IsPeer n id ps v in
      let sent =
        either-IsPeer (suc n) id (is_positive decision.delay && cut_short) _ _ kept
          (send_connected-IsPeer id ps v) in
      either-IsPeer (suc n) id (not decision.allow) _ _ kept sent

-- What a round of probes makes of one peer.
abbrev pub probed : String → (String → Decision) → (String → Network) → ℕ → PeerState → PeerState
probed self before_probe net now ps =
    if not (before_probe ps.id).allow || not (should_dial self ps.id)
    then ps
    else probe_peer self (net ps.id) now ps

module _ (self : String) (before_probe : String → Decision) (net : String → Network) (now : ℕ) where
  pub at-probe_peers :
      (peers : GoMap PeerState) (id : String)
      → at (probe_peers self before_probe net now peers) id ≡ (elim (at peers id) [
        | none ↦ none
        | some ps ↦ some (probed self before_probe net now ps)
      ])
  unfolding probe_peers at
  at-probe_peers [] id = refl
  at-probe_peers ((j, ps) ∷ peers) id = ground (arith, at-probe_peers peers id)

  pub probe_peers-IsMap :
      (peers : GoMap PeerState) → IsMap peers → IsMap (probe_peers self before_probe net now peers)
  unfolding probe_peers
  probe_peers-IsMap [] h = tt
  probe_peers-IsMap ((j, ps) ∷ peers) h =
      ground (arith, at-probe_peers peers j, probe_peers-IsMap peers h.1)

  pub probed-IsPeer :
      (n : ℕ) (id : String) (ps : PeerState)
      → n < max_int64
      → IsPeer n id ps
      → IsPeer (suc n) id (probed self before_probe net now ps)
  probed-IsPeer n id ps room v =
      if-IsPeer (suc n) id (not (before_probe ps.id).allow || not (should_dial self ps.id)) _ _
        (weaken-IsPeer n id ps v) (probe_peer-IsPeer self (net ps.id) n now id ps room v)
