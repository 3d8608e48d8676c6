-- ===== src/Tests/FailureDetector.antt =====
-- The failure detector at concrete inputs.
use faultlab.Prelude.{
  ◌≡◌, ◌≢◌, insert, refl, ◌+◌, ◌%◌, ◌^◌, String, Option, none, some, [], ◌∷◌, arith, ◌&&◌, not,
  ◌=ℕ=◌, ◌=ℤ=◌, at, if◌then◌else◌, inr, cut_first, cut_last, eq_iff, true,
}
use faultlab.Protocol.{Envelope, protocol_kind, Codec}
use faultlab.Gossip.Peers.{has_peer}
use faultlab.Baseline.{
  alive, suspect, dead, MembershipEvent, BaselineProtocol, number_at, status_at, tick, set_peers,
  on_message, sender_of, new_baseline_protocol, start,
}
use faultlab.Baseline.Ticks.{advanced, suspected, Kept, tick_lem}
use faultlab.Baseline.Timeline.{ticks, silent_status, status_at-ticks}
use faultlab.Baseline.Peers.{new_peer_suspect}
use faultlab.Baseline.Messages.{on_message-ticks}
use faultlab.Baseline.Sent.{dies, announces, beats, tick-sends_to}

-- A codec whose bytes are an event or, for everything else, nothing.
abbrev plain : Codec MembershipEvent
plain = record {
  Bytes = Option MembershipEvent;
  encode = λ m. some m;
  decode = λ m. m;
  decode-encode = λ m. refl;
}

-- At tick 40, b was heard at 40, c at 3 and is suspect since 24, d is dead.
abbrev watcher : BaselineProtocol
watcher = record {
  node_id = "a";
  tick = 40;
  heartbeat_interval = 5;
  timeout_ticks = 20;
  last_seen = ("b", 40) ∷ ("c", 3) ∷ ("d", 1) ∷ [];
  status = ("a", alive) ∷ ("b", alive) ∷ ("c", suspect) ∷ ("d", dead) ∷ [];
  incarnation = ("a", 0) ∷ [];
  suspect_since = ("c", 20) ∷ ("d", 9) ∷ [];
  peers = "b" ∷ "c" ∷ "d" ∷ [];
  has_discovery_callback = true;
}

abbrev counted : BaselineProtocol
counted = record watcher { tick = (40 + 1) % 2 ^ 64 }

abbrev heartbeat_of_d : Envelope (Option MembershipEvent)
heartbeat_of_d = record {
  from = "d@localhost:7004";
  to = "a";
  protocol = "baseline";
  payload = none;
  kind = protocol_kind;
  trace_metadata = "BASELINE_HEARTBEAT";
  version = 0;
  logical_tick = 0;
}

abbrev greeting : Envelope (Option MembershipEvent)
greeting = record heartbeat_of_d { from = "e@localhost:7005" }

abbrev accusation : Envelope (Option MembershipEvent)
accusation = record heartbeat_of_d {
  payload = some record { subject = "a"; status = dead; incarnation = 4 };
}

tick_lem_example :
    (status_at (tick plain none watcher).0.status "c"
      ≡ (if has_peer watcher.peers "c" then advanced counted "c" else status_at watcher.status "c"))
    × (number_at (tick plain none watcher).0.suspect_since "c" ≡ (
        if has_peer watcher.peers "c"
        then suspected counted "c"
        else number_at watcher.suspect_since "c"))
    × Kept counted (tick plain none watcher).0
tick_lem_example = tick_lem plain none watcher "c"

d_is_not_a : ◌≢◌ {A = String} "d" "a"
d_is_not_a e = ground (arith, eq_iff "d" "a")

e_is_not_a : ◌≢◌ {A = String} "e" "a"
e_is_not_a e = ground (arith, eq_iff "e" "a")

status_at-ticks_example :
    status_at (ticks plain none 30 watcher).status "b" ≡ silent_status watcher.timeout_ticks 30
unfolding at status_at number_at has_peer
status_at-ticks_example = status_at-ticks plain none 30 watcher "b" (omega arith) refl refl refl

-- d, which counted as dead, is heard again.
on_message-ticks_example :
    status_at (ticks plain none 30 (on_message plain watcher heartbeat_of_d).node).status "d"
    ≡ silent_status watcher.timeout_ticks 30
unfolding at status_at has_peer sender_of cut_first cut_last
on_message-ticks_example =
    on_message-ticks plain none 30 watcher heartbeat_of_d 1 (λ e. d_is_not_a e) refl refl
      (inr (inr refl)) refl (omega arith)

new_peer_suspect_example :
    status_at (tick plain none (set_peers watcher ("b" ∷ "f" ∷ []))).0.status "f" ≡ suspect
unfolding at has_peer
new_peer_suspect_example =
    new_peer_suspect plain none watcher ("b" ∷ "f" ∷ []) "f" refl refl (omega arith) (omega arith)

tick-sends_to_example :
    (beats plain "c" (tick plain none watcher).1 ≡ (
      (counted.tick % watcher.heartbeat_interval =ℕ= 0)
      && (has_peer watcher.peers "c" && not (status_at watcher.status "c" =ℤ= dead))))
    × (announces plain "c" (tick plain none watcher).1
        ≡ (has_peer watcher.peers "c" && dies counted "c"))
tick-sends_to_example = tick-sends_to plain none watcher "c" refl

-- Runs of the definitions.
runs :
    (status_at (tick plain none watcher).0.status "c" ≡ dead)
    × (announces plain "c" (tick plain none watcher).1 ≡ true)
    × (number_at (on_message plain watcher accusation).node.incarnation "a" ≡ 1)
    × ((start (new_baseline_protocol ("b" ∷ [])) "a").status ≡ ("a", alive) ∷ ("b", alive) ∷ [])
unfolding tick status_at number_at announces on_message start new_baseline_protocol at insert
    cut_first cut_last
runs = (refl, refl, refl, refl)
