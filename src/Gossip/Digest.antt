-- ===== src/Gossip/Digest.antt =====
-- Tick, handleDigest and OnMessage of propagation.go. A reading of the wall clock (milliseconds) and
-- the random number source are arguments.
pub mod Laws
pub mod Behind
pub mod Exchange
pub mod Handlers
use Prim.Native.String.{len, slice, ◌++◌}
use faultlab.Prelude.{
  ℕ, ◌+◌, ◌%◌, ◌^◌, ◌=ℕ=◌, ltb, String, Bool, true, false, not, ◌&&◌, ◌||◌, Option, none, some,
  List, [], ◌∷◌, ◌++◌ as append, map, length, if◌then◌else◌, ℤ, pos, ltb_ℤ, GoMap, at, insert,
  delete, ◌==◌, decimal, join,
}
use faultlab.Protocol.{Envelope, protocol_kind, Codec}
use faultlab.Gossip.Value.{Value, DigestEntry, value_to_digest_entry, compare_value_to_digest}
use faultlab.Gossip.State.{GossipProtocol, GossipMessage, TimelineEvent, msg_digest, msg_state}
use faultlab.Gossip.Merge.{handle_state}
use faultlab.Gossip.Peers.{has_peer, pick_random_peer, parse_sender_address}

-- The loop that fills gm.Digest from the store.
digest_from : GoMap DigestEntry → GoMap Value → GoMap DigestEntry
digest_from digest [] = digest
digest_from digest ((k, v) ∷ store) = digest_from (insert digest k (value_to_digest_entry v)) store

-- The DIGEST message over a store.
unfoldable pub digest_message : GoMap Value → GossipMessage
unfolding digest_from
digest_message store = record {
  message_type = msg_digest;
  digest = digest_from [] store;
  state = [];
}

newer_entry : Option DigestEntry → GoMap Value → String → Value → GoMap Value
newer_entry none state k v = insert state k v
newer_entry (some entry) state k v =
    if ltb_ℤ (pos 0) (compare_value_to_digest v entry) then insert state k v else state

-- The first loop of handleDigest: what the sender of the digest lacks or has older.
newer_state : GoMap DigestEntry → GoMap Value → GoMap Value → GoMap Value
unfolding newer_entry
newer_state digest state [] = state
newer_state digest state ((k, v) ∷ store) =
    newer_state digest (newer_entry (at digest k) state k v) store

-- The STATE message that answers a digest.
unfoldable pub state_message : GoMap Value → GoMap DigestEntry → GossipMessage
unfolding newer_state
state_message store digest = record {
  message_type = msg_state;
  digest = [];
  state = newer_state digest [] store;
}

-- One round of the second loop: is this node behind on the key?
behind_on : Option Value → DigestEntry → Bool
behind_on none entry = true
behind_on (some v) entry = ltb_ℤ (compare_value_to_digest v entry) (pos 0)

unfoldable pub is_behind : GoMap Value → GoMap DigestEntry → Bool
unfolding behind_on
is_behind store [] = false
is_behind store ((k, entry) ∷ digest) =
    let rest = is_behind store digest in if behind_on (at store k) entry then true else rest

-- A trace text is cut to 100 bytes.
shorten : String → String
shorten s = if ltb 100 (len s) then slice s 0 97 ++ "..." else s

keys_trace : GoMap DigestEntry → String
unfolding shorten
keys_trace digest = shorten ("keys=[" ++ join "," (map (λ e. e.0) digest) ++ "]")

updates_trace : GoMap Value → String
unfolding shorten
updates_trace state =
    shorten ("updates={" ++ join "," (map (λ e. e.0 ++ "=" ++ e.1.datum) state) ++ "}")

-- What a handler leaves and does: the new state, the envelopes to send, the timeline events, and
-- the calls of OnPeerDiscovered (id, host and port).
pub record Outcome (Bytes : Type 0) : Type 0 where
  pub node : GossipProtocol
  pub out : List (Envelope Bytes)
  pub events : List TimelineEvent
  pub discovered : List (String × String × ℤ)

-- The peer discovery of OnMessage.
discover : GossipProtocol → String → String → ℤ → GossipProtocol × List (String × String × ℤ)
discover g sender_id host port =
    if not (sender_id == "") && not (sender_id == g.node_id) && not (has_peer g.peers sender_id)
    then (
      record g { peers = append g.peers (sender_id ∷ []) },
      if g.has_discovery_callback && not (host == "") && ltb_ℤ (pos 0) port
          then (sender_id, host, port) ∷ []
          else [],
    )
    else (g, [])

-- The receiver of the digest: a peer marked for an immediate exchange, whose mark goes, or a
-- random one.
pick_peer : GossipProtocol → GoMap Bool → (ℕ → ℕ) → GossipProtocol × Option String
pick_peer g [] intn = (g, pick_random_peer intn g.peers)
pick_peer g ((p, _) ∷ _) intn =
    (record g { force_sync_peers = delete g.force_sync_peers p }, some p)

module _ (json : Codec GossipMessage) where
  open json use {Bytes, encode, decode}

  envelope : String → String → GossipMessage → String → ℕ → Envelope Bytes
  envelope from to msg trace now = record {
    from = from;
    to = to;
    protocol = "gossip";
    payload = encode msg;
    kind = protocol_kind;
    trace_metadata = trace;
    version = 1;
    logical_tick = now;
  }

  digest_to : GossipProtocol → Option String → ℕ → List (Envelope Bytes)
  unfolding envelope keys_trace
  digest_to g none now = []
  digest_to g (some peer) now =
      let gm = digest_message g.store in
      envelope g.node_id peer gm ("GOSSIP_DIGEST:" ++ keys_trace gm.digest) now ∷ []

  -- Tick; the counter is a uint64
  unfoldable pub tick : GossipProtocol → ℕ → (ℕ → ℕ) → GossipProtocol × List (Envelope Bytes)
  unfolding pick_peer digest_to
  tick g now intn =
      let g' = record g { tick = (g.tick + 1) % 2 ^ 64 } in
      let (g'', peer) = pick_peer g' g'.force_sync_peers intn in
      if not (g'.tick % g'.gossip_interval =ℕ= 0) then (g', []) else (g'', digest_to g'' peer now)

  state_reply : GossipProtocol → String → GossipMessage → ℕ → List (Envelope Bytes)
  unfolding envelope updates_trace
  state_reply g from msg now =
      if length msg.state =ℕ= 0
      then []
      else envelope g.node_id from msg ("GOSSIP_STATE:" ++ updates_trace msg.state) now ∷ []

  digest_reply : GossipProtocol → String → Bool → ℕ → List (Envelope Bytes)
  unfolding envelope
  digest_reply g from false now = []
  digest_reply g from true now =
      let msg = digest_message g.store in
      envelope g.node_id from msg ("GOSSIP_SYNC_REQ:" ++ decimal (length msg.digest) ++ "_keys") now
      ∷ []

  -- handleDigest; the clock is read once for each message
  unfoldable pub handle_digest :
      GossipProtocol → String → GossipMessage → ℕ → ℕ → List (Envelope Bytes)
  unfolding state_reply digest_reply is_behind
  handle_digest g from msg now later =
      append (state_reply g from (state_message g.store msg.digest) now)
        (digest_reply g from (is_behind g.store msg.digest) later)

  dispatch :
      GossipProtocol
      → String
      → Option GossipMessage
      → ℕ
      → ℕ
      → GossipProtocol × List (Envelope Bytes) × List TimelineEvent
  dispatch g sender_id none now later = (g, [], [])
  dispatch g sender_id (some msg) now later =
      if msg.message_type == msg_digest
      then (g, handle_digest g sender_id msg now later, [])
      else if msg.message_type == msg_state
      then (let (g', events) = handle_state g msg in (g', [], events))
      else (g, [], [])

  -- OnMessage
  unfoldable pub on_message : GossipProtocol → Envelope Bytes → ℕ → ℕ → Outcome Bytes
  unfolding discover dispatch
  on_message g env now later =
      let (parsed, host, port) = parse_sender_address env.from in
      let sender_id = if parsed == "" then env.from else parsed in
      let (g', found) = discover g sender_id host port in
      let (g'', sent, emitted) = dispatch g' sender_id (decode env.payload) now later in
      record { node = g''; out = sent; events = emitted; discovered = found }
