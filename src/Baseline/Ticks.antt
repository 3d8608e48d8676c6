-- ===== src/Baseline/Ticks.antt =====
-- What one Tick of the failure detector does to each peer.
use faultlab.Prelude.{
  ◌≡◌, refl, ℕ, ◌+◌, ◌%◌, ◌^◌, ◌<◌, ltb, String, List, [], ◌∷◌, ◌&&◌, arith, if◌then◌else◌, ℤ,
  ◌=ℤ=◌, GoMap, insert, at-insert, eq_iff, ◌==◌,
}
use faultlab.Protocol.{Codec}
use faultlab.Gossip.Peers.{has_peer}
use faultlab.Baseline.{
  alive, suspect, dead, MembershipEvent, BaselineProtocol, number_at, status_at, sub64, check_peer,
  check_peers, tick,
}

pub status_at-insert :
    (m : GoMap ℤ) (k : String) (v : ℤ) (j : String)
    → status_at (insert m k v) j ≡ (if k == j then v else status_at m j)
unfolding status_at
status_at-insert m k v j = ground (arith, at-insert m k v j)

pub number_at-insert :
    (m : GoMap ℕ) (k : String) (v : ℕ) (j : String)
    → number_at (insert m k v) j ≡ (if k == j then v else number_at m j)
unfolding number_at
number_at-insert m k v j = ground (arith, at-insert m k v j)

-- The status that follows one, given how long ago the peer was heard and was suspected.
abbrev pub advance : ℕ → ℕ → ℕ → ℤ → ℤ
advance limit heard suspected s =
    if s =ℤ= alive
    then (if ltb limit heard then suspect else s)
    else if s =ℤ= suspect
    then (if ltb limit suspected then dead else s)
    else s

-- The moment of suspicion that follows one.
abbrev pub suspicion : ℕ → ℕ → ℤ → ℕ → ℕ → ℕ
suspicion limit heard s now since = if s =ℤ= alive && ltb limit heard then now else since

-- What a check of the peer `p` alone makes of its status.
abbrev pub advanced : BaselineProtocol → String → ℤ
advanced b p =
    advance b.timeout_ticks (sub64 b.tick (number_at b.last_seen p))
      (sub64 b.tick (number_at b.suspect_since p)) (status_at b.status p)

abbrev pub suspected : BaselineProtocol → String → ℕ
suspected b p =
    suspicion b.timeout_ticks (sub64 b.tick (number_at b.last_seen p)) (status_at b.status p) b.tick
      (number_at b.suspect_since p)

-- The part of the state that a check leaves alone.
abbrev pub Kept : BaselineProtocol → BaselineProtocol → Type 0
Kept b b' =
    (b'.tick ≡ b.tick)
    × (b'.timeout_ticks ≡ b.timeout_ticks)
    × (b'.last_seen ≡ b.last_seen)
    × (b'.peers ≡ b.peers)

pub check_peer-Kept : (b : BaselineProtocol) (q : String) → Kept b (check_peer b q).0
unfolding check_peer
check_peer-Kept b q = ground arith

pub status_at-check_peer :
    (b : BaselineProtocol) (q p : String)
    → status_at (check_peer b q).0.status p
      ≡ (if q == p then advanced b p else status_at b.status p)
unfolding check_peer
status_at-check_peer b q p =
    ground
      (arith, eq_iff q p, status_at-insert b.status q suspect p, status_at-insert b.status q dead p)

pub number_at-check_peer :
    (b : BaselineProtocol) (q p : String)
    → number_at (check_peer b q).0.suspect_since p
      ≡ (if q == p then suspected b p else number_at b.suspect_since p)
unfolding check_peer
number_at-check_peer b q p = ground (arith, eq_iff q p, number_at-insert b.suspect_since q b.tick p)

-- A second check of a peer in the same tick changes nothing.
advanced-check_peer :
    (b : BaselineProtocol) (q p : String)
    → b.tick < 2 ^ 64
    → (advanced (check_peer b q).0 p ≡ advanced b p)
      × (suspected (check_peer b q).0 p ≡ suspected b p)
advanced-check_peer b q p h =
    let (e1, e2, e3, e4) = check_peer-Kept b q in
    let s = status_at-check_peer b q p in
    let n = number_at-check_peer b q p in (ground arith, ground arith)

module _ (json : Codec MembershipEvent) where
  check_peers-Kept : (b : BaselineProtocol) (ps : List String) → Kept b (check_peers json b ps).0
  unfolding check_peers
  check_peers-Kept b [] = (refl, refl, refl, refl)
  check_peers-Kept b (q ∷ ps) =
      let k = check_peer-Kept b q in let r = check_peers-Kept (check_peer b q).0 ps in ground arith

  at-check_peers :
      (b : BaselineProtocol) (ps : List String) (p : String)
      → b.tick < 2 ^ 64
      → (status_at (check_peers json b ps).0.status p
          ≡ (if has_peer ps p then advanced b p else status_at b.status p))
        × (number_at (check_peers json b ps).0.suspect_since p
            ≡ (if has_peer ps p then suspected b p else number_at b.suspect_since p))
  unfolding check_peers has_peer
  at-check_peers b [] p h = (refl, refl)
  at-check_peers b (q ∷ ps) p h =
      let (e1, e2, e3, e4) = check_peer-Kept b q in
      let (a1, a2) = advanced-check_peer b q p h in
      let s = status_at-check_peer b q p in
      let n = number_at-check_peer b q p in
      let (r1, r2) = at-check_peers (check_peer b q).0 ps p (ground arith) in
      (ground (arith, eq_iff q p), ground (arith, eq_iff q p))

  -- One Tick counts on by one, keeps the peers and the moments at which they were heard, and moves
  -- every peer on by the same rule: from alive to suspect when it was silent for longer than the
  -- limit, from suspect to dead when it was suspect for longer than the limit. Who is no peer keeps
  -- its status. (A peer that the list names twice moves by one step only.)
  pub tick_lem :
      (beat : json.Bytes) (b : BaselineProtocol) (p : String)
      → let counted = record b { tick = (b.tick + 1) % 2 ^ 64 } in
        let b' = (tick json beat b).0 in
        (status_at b'.status p
          ≡ (if has_peer b.peers p then advanced counted p else status_at b.status p))
        × (number_at b'.suspect_since p
            ≡ (if has_peer b.peers p then suspected counted p else number_at b.suspect_since p))
        × Kept counted b'
  unfolding tick
  tick_lem beat b p =
      let counted = record b { tick = (b.tick + 1) % 2 ^ 64 } in
      let (s, n) = at-check_peers counted b.peers p (omega arith) in
      (s, n, check_peers-Kept counted b.peers)
