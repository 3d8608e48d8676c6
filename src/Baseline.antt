-- ===== src/Baseline.antt =====
-- The failure detector of internal/node/protocol/baseline/baseline.go. Its clock and the moments that
-- it stores are uint64; a MembershipStatus is an int.

pub mod Ticks
pub mod Timeline
pub mod Peers
pub mod Messages
pub mod Sent
use faultlab.Prelude.{
  ℕ, ◌+◌, ◌-◌, ◌%◌, ◌^◌, ◌=ℕ=◌, ltb, String, Bool, true, false, not, ◌&&◌, ◌||◌, Option, none, some,
  List, [], ◌∷◌, ◌++◌ as append, map, if◌then◌else◌, ℤ, pos, ◌=ℤ=◌, GoMap, at, insert, ◌==◌,
  cut_first, cut_last, atoi_value,
}
use Prim.Native.String.{◌++◌}
use faultlab.Protocol.{Envelope, protocol_kind, Codec}

abbrev pub alive : ℤ
alive = pos 0

abbrev pub suspect : ℤ
suspect = pos 1

abbrev pub dead : ℤ
dead = pos 2

-- `subject` is the field Node.
pub record MembershipEvent : Type 0 where
  pub subject : String
  pub status : ℤ
  pub incarnation : ℕ

pub record BaselineProtocol : Type 0 where
  pub node_id : String
  pub tick : ℕ
  pub heartbeat_interval : ℕ
  pub timeout_ticks : ℕ
  pub last_seen : GoMap ℕ
  pub status : GoMap ℤ
  pub incarnation : GoMap ℕ
  pub suspect_since : GoMap ℕ
  pub peers : List String
  pub has_discovery_callback : Bool

-- A read of a map of numbers, 0 for a missing key.
unfoldable pub number_at : GoMap ℕ → String → ℕ
number_at m k = elim (at m k) [ none ↦ 0 | some n ↦ n ]

-- A read of b.status: a missing key reads as StatusAlive.
unfoldable pub status_at : GoMap ℤ → String → ℤ
status_at m k = elim (at m k) [ none ↦ alive | some s ↦ s ]

-- The difference of two uint64.
abbrev pub sub64 : ℕ → ℕ → ℕ
sub64 a b = (a + (2 ^ 64 - b)) % 2 ^ 64

-- NewBaselineProtocol
unfoldable pub new_baseline_protocol : List String → BaselineProtocol
new_baseline_protocol peers = record {
  node_id = "";
  tick = 0;
  heartbeat_interval = 5;
  timeout_ticks = 20;
  last_seen = [];
  status = [];
  incarnation = [];
  suspect_since = [];
  peers = peers;
  has_discovery_callback = false;
}

-- What a peer starts with, for each of a list.
start_peers : BaselineProtocol → List String → BaselineProtocol
start_peers b [] = b
start_peers b (p ∷ ps) =
    start_peers
      (record b {
        last_seen = insert b.last_seen p 0;
        status = insert b.status p alive;
        incarnation = insert b.incarnation p 0;
      })
      ps

-- Start
unfoldable pub start : BaselineProtocol → String → BaselineProtocol
unfolding start_peers
start b node_id =
    let b' = record b { node_id = node_id; tick = 0; status = insert b.status node_id alive } in
    let b'' = start_peers b' b.peers in
    record b'' { incarnation = insert b''.incarnation node_id 0 }

-- One round of the loop of SetPeers.
admit_peer : Option ℕ → BaselineProtocol → String → BaselineProtocol
admit_peer none b p = record b {
  last_seen = insert b.last_seen p 0;
  status = insert b.status p alive;
  incarnation = insert b.incarnation p 0;
}
admit_peer (some _) b p = b

admit_peers : BaselineProtocol → List String → BaselineProtocol
unfolding admit_peer
admit_peers b [] = b
admit_peers b (p ∷ ps) = admit_peers (admit_peer (at b.last_seen p) b p) ps

-- SetPeers
unfoldable pub set_peers : BaselineProtocol → List String → BaselineProtocol
unfolding admit_peers
set_peers b peers = admit_peers (record b { peers = peers }) peers

-- SetPeerDiscoveryCallback; the callback itself belongs to the runtime
unfoldable pub set_peer_discovery_callback : BaselineProtocol → Bool → BaselineProtocol
set_peer_discovery_callback b given = record b { has_discovery_callback = given }

status_name : ℤ → String
status_name s =
    if s =ℤ= alive
    then "ALIVE"
    else if s =ℤ= suspect
    then "SUSPECT"
    else if s =ℤ= dead
    then "DEAD"
    else "UNKNOWN"

-- The peers that a heartbeat goes to.
unfoldable pub alive_peers : GoMap ℤ → List String → List String
alive_peers status [] = []
alive_peers status (p ∷ ps) =
    let rest = alive_peers status ps in if status_at status p =ℤ= dead then rest else p ∷ rest

-- What a handler leaves and does: the new state, the envelopes to send, and the calls of
-- OnPeerDiscovered (id, host and port).
pub record Outcome (Bytes : Type 0) : Type 0 where
  pub node : BaselineProtocol
  pub out : List (Envelope Bytes)
  pub discovered : List (String × String × ℤ)

-- env.From split into the sender's id, host and port.
unfoldable pub sender_of : String → Option (String × String) → String × String × ℤ
sender_of from none = (from, "", pos 0)
sender_of from (some (sender_id, address)) = elim (cut_last b':' address) [
  | none ↦ (sender_id, "", pos 0)
  | some (host, port) ↦ (sender_id, host, atoi_value port)
]

-- A sender that is not in lastSeen becomes a peer.
discover :
    Option ℕ
    → BaselineProtocol
    → String
    → String
    → ℤ
    → BaselineProtocol × List (String × String × ℤ)
discover (some _) b id host port = (b, [])
discover none b id host port = (
  record b {
    peers = append b.peers (id ∷ []);
    last_seen = insert b.last_seen id b.tick;
    status = insert b.status id alive;
    incarnation = insert b.incarnation id 0;
  },
  if b.has_discovery_callback && not (host == "") then (id, host, port) ∷ [] else [],
)

-- The sender is alive now.
mark_seen : BaselineProtocol → String → BaselineProtocol
mark_seen b id =
    let old = status_at b.status id in
    record b {
      last_seen = insert b.last_seen id b.tick;
      status = if old =ℤ= suspect || old =ℤ= dead then insert b.status id alive else b.status;
    }

-- The check of one peer in Tick: the new state, and whether its death is announced.
pub check_peer : BaselineProtocol → String → BaselineProtocol × Bool
check_peer b peer =
    let now = status_at b.status peer in
    if now =ℤ= alive
    then (if ltb b.timeout_ticks (sub64 b.tick (number_at b.last_seen peer))
        then (
          record b {
            status = insert b.status peer suspect;
            suspect_since = insert b.suspect_since peer b.tick;
          },
          false,
        )
        else (b, false))
    else if now =ℤ= suspect
    then (if ltb b.timeout_ticks (sub64 b.tick (number_at b.suspect_since peer))
        then (record b { status = insert b.status peer dead }, true)
        else (b, false))
    else (b, false)

module _ (json : Codec MembershipEvent) where
  open json use {Bytes, encode, decode}

  -- makeMembershipEnvelope
  membership_envelope : BaselineProtocol → String → ℤ → Envelope Bytes
  unfolding status_name
  membership_envelope b subject status = record {
    from = b.node_id;
    to = "";
    protocol = "baseline";
    payload = encode record {
      subject = subject;
      status = status;
      incarnation = number_at b.incarnation subject;
    };
    kind = protocol_kind;
    trace_metadata = "BASELINE_MEMBERSHIP:" ++ status_name status;
    version = 0;
    logical_tick = 0;
  }

  -- `beat` is the payload []byte("HEARTBEAT").
  unfoldable pub heartbeat_to : Bytes → String → String → Envelope Bytes
  heartbeat_to beat node_id peer = record {
    from = node_id;
    to = peer;
    protocol = "baseline";
    payload = beat;
    kind = protocol_kind;
    trace_metadata = "BASELINE_HEARTBEAT";
    version = 0;
    logical_tick = 0;
  }

  -- The second loop of Tick.
  check_peers : BaselineProtocol → List String → BaselineProtocol × List (Envelope Bytes)
  unfolding check_peer membership_envelope
  check_peers b [] = (b, [])
  check_peers b (p ∷ ps) =
      let (b', died) = check_peer b p in
      let (b'', out) = check_peers b' ps in
      (b'', if died then membership_envelope b' p dead ∷ out else out)

  heartbeats : Bytes → BaselineProtocol → List (Envelope Bytes)
  heartbeats beat b =
      if b.tick % b.heartbeat_interval =ℕ= 0
      then map (heartbeat_to beat b.node_id) (alive_peers b.status b.peers)
      else []

  -- Tick
  unfoldable pub tick : Bytes → BaselineProtocol → BaselineProtocol × List (Envelope Bytes)
  unfolding heartbeats check_peers
  tick beat b =
      let b' = record b { tick = (b.tick + 1) % 2 ^ 64 } in
      let (b'', announced) = check_peers b' b'.peers in (b'', append (heartbeats beat b') announced)

  -- A membership event: a node that reads of its own death raises its incarnation and answers.
  apply_event : BaselineProtocol → MembershipEvent → BaselineProtocol × List (Envelope Bytes)
  unfolding membership_envelope
  apply_event b ev =
      let local_inc = number_at b.incarnation ev.subject in
      let raised = (number_at b.incarnation b.node_id + 1) % 2 ^ 64 in
      let revived = record b {
        incarnation = insert b.incarnation b.node_id raised;
        status = insert b.status b.node_id alive;
      } in
      if ev.subject == b.node_id && ev.status =ℤ= dead && ltb local_inc ev.incarnation
      then (revived, membership_envelope revived b.node_id alive ∷ [])
      else if ltb local_inc ev.incarnation
      then (
        record b {
          incarnation = insert b.incarnation ev.subject ev.incarnation;
          status = insert b.status ev.subject ev.status;
        },
        [],
      )
      else (b, [])

  receive : BaselineProtocol → Option MembershipEvent → BaselineProtocol × List (Envelope Bytes)
  unfolding apply_event
  receive b none = (b, [])
  receive b (some ev) = apply_event b ev

  -- OnMessage
  unfoldable pub on_message : BaselineProtocol → Envelope Bytes → Outcome Bytes
  unfolding sender_of discover mark_seen receive
  on_message b env =
      let (id, host, port) = sender_of env.from (cut_first b'@' env.from) in
      let (b', found) = discover (at b.last_seen id) b id host port in
      let (b'', sent) = receive (mark_seen b' id) (decode env.payload) in
      if id == b.node_id
      then record { node = b; out = []; discovered = [] }
      else record { node = b''; out = sent; discovered = found }
