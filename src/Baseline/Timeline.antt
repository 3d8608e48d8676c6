-- ===== src/Baseline/Timeline.antt =====
-- What the failure detector makes of a silent peer, tick by tick.
use faultlab.Prelude.{
  ◌≡◌, ◌∙◌, refl, ℕ, zero, suc, ◌+◌, ◌-◌, ◌*◌, ◌%◌, ◌^◌, ◌<◌, ◌≤◌, leb, String, true, arith,
  if◌then◌else◌, ℤ,
}
use faultlab.Protocol.{Codec}
use faultlab.Gossip.Peers.{has_peer}
use faultlab.Baseline.{
  alive, suspect, dead, MembershipEvent, BaselineProtocol, number_at, status_at, sub64, tick,
}
use faultlab.Baseline.Ticks.{advance, suspicion, tick_lem}

-- What a silent peer's status is after k ticks.
abbrev pub silent_status : ℕ → ℕ → ℤ
silent_status limit k =
    if leb k limit then alive else if leb k (2 * limit + 1) then suspect else dead

sub64_lem : (a b : ℕ) → b ≤ a → a < 2 ^ 64 → sub64 a b ≡ a - b
sub64_lem a b h l = omega arith

count_up : (now t k : ℕ) → now ≡ t + k → t + suc k < 2 ^ 64 → (now + 1) % 2 ^ 64 ≡ t + suc k
count_up now t k e h = omega arith

doubted_for :
    (limit t k : ℕ) → t + suc k < 2 ^ 64 → limit < k → sub64 (t + suc k) (t + limit + 1) ≡ k - limit
doubted_for limit t k h l = omega arith

-- The rule moves a silent peer along its timeline.
silent_step :
    (limit k heard doubted : ℕ)
    → heard ≡ suc k
    → (limit < k → doubted ≡ k - limit)
    → advance limit heard doubted (silent_status limit k) ≡ silent_status limit (suc k)
silent_step limit k heard doubted e f = ground arith

silent_suspicion :
    (limit k t heard since : ℕ)
    → heard ≡ suc k
    → (limit < k → since ≡ t + limit + 1)
    → limit < suc k
    → suspicion limit heard (silent_status limit k) (t + suc k) since ≡ t + limit + 1
silent_suspicion limit k t heard since e f l = ground arith

module _ (json : Codec MembershipEvent) where
  -- The state after k ticks with no message in between.
  abbrev pub ticks : json.Bytes → ℕ → BaselineProtocol → BaselineProtocol
  ticks beat zero b = b
  ticks beat (suc k) b = (tick json beat (ticks beat k b)).0

  -- The state after k ticks, from one in which the peer `p` was just heard at tick t.
  abbrev Silent : BaselineProtocol → ℕ → ℕ → ℕ → String → Type 0
  Silent b limit t k p =
      (b.tick ≡ t + k)
      × (b.timeout_ticks ≡ limit)
      × (number_at b.last_seen p ≡ t)
      × (has_peer b.peers p ≡ true)
      × (status_at b.status p ≡ silent_status limit k)
      × (limit < k → number_at b.suspect_since p ≡ t + limit + 1)

  tick-Silent :
      (beat : json.Bytes) (b : BaselineProtocol) (limit t k : ℕ) (p : String)
      → t + suc k < 2 ^ 64
      → Silent b limit t k p
      → Silent (tick json beat b).0 limit t (suc k) p
  tick-Silent beat b limit t k p bound (e1, e2, e3, e4, e5, e6) =
      let (s, n, kept) = tick_lem json beat b p in
      let (k1, k2, k3, k4) = kept in
      let now = count_up b.tick t k e1 bound in
      let heard = sub64_lem (t + suc k) t (omega arith) bound in
      let doubted = doubted_for limit t k bound in
      let step =
        silent_step limit k (sub64 (t + suc k) t) (sub64 (t + suc k) (number_at b.suspect_since p))
          (ground arith) (λ h. ground (arith, e6 h, doubted h)) in
      (
        ground arith,
        ground arith,
        ground arith,
        ground arith,
        s ∙ rw (e4, now, e2, e3, e5) step,
        λ l.
            n
            ∙ rw (e4, now, e2, e3, e5)
                (silent_suspicion limit k t (sub64 (t + suc k) t) (number_at b.suspect_since p)
                  (ground arith) e6 l),
      )

  pub ticks-Silent :
      (beat : json.Bytes) (k : ℕ) (b : BaselineProtocol) (p : String)
      → b.tick + k < 2 ^ 64
      → has_peer b.peers p ≡ true
      → status_at b.status p ≡ alive
      → number_at b.last_seen p ≡ b.tick
      → Silent (ticks beat k b) b.timeout_ticks b.tick k p
  ticks-Silent beat zero b p bound m a seen =
      (omega arith, refl, seen, m, ground arith, λ l. absurd (omega arith))
  ticks-Silent beat (suc k) b p bound m a seen =
      tick-Silent beat (ticks beat k b) b.timeout_ticks b.tick k p bound
        (ticks-Silent beat k b p (omega arith) m a seen)

  -- A peer in the list that is alive and was just heard, and then stays silent, is alive for as
  -- many ticks as the limit says, suspect for one tick more than that, and dead from then on, as
  -- long as the counter does not overflow.
  pub status_at-ticks :
      (beat : json.Bytes) (k : ℕ) (b : BaselineProtocol) (p : String)
      → b.tick + k < 2 ^ 64
      → has_peer b.peers p ≡ true
      → status_at b.status p ≡ alive
      → number_at b.last_seen p ≡ b.tick
      → status_at (ticks beat k b).status p ≡ silent_status b.timeout_ticks k
  status_at-ticks beat k b p bound m a seen =
      let (tick, limit, heard, peer, s, since) = ticks-Silent beat k b p bound m a seen in s
