-- ===== src/NodeSession.antt =====
-- internal/node/session/node.go: the peers of a node, how they are probed and sent to, and their
-- health. gRPC is an argument: whether the dial, the handshake, the ping and the envelope get
-- through. A connection is whether there is one; times are nanoseconds; delays are waited out.
pub mod Topology
pub mod Health
pub mod Reach
pub mod CutOff
use Prim.Native.String.{◌++◌}
use faultlab.Prelude.{
  inc64, ltb_ℤ, ℕ, zero, suc, pos, negsuc, ◌+◌, ◌=ℕ=◌, leb, String, Bool, true, false, not, ◌&&◌,
  ◌||◌, Option, none, some, List, [], ◌∷◌, if◌then◌else◌, ℤ, ◌=ℤ=◌, GoMap, at, insert, ◌==◌,
  str_ltb, print_int,
}
use faultlab.Protocol.{Envelope}
use faultlab.Fault.{Decision}

-- The constants Peer... of internal/node/runtime/session_contract.go
pub data TransportHealth : Type 0 where
  peer_alive peer_suspect peer_dead : TransportHealth

pub record PeerInfo : Type 0 where
  pub id : String
  pub host : String
  pub port : ℤ

pub record PeerState : Type 0 where
  pub id : String
  pub host : String
  pub port : ℤ
  pub connected : Bool
  pub last_success : Option ℕ
  pub fail_count : ℤ
  pub health : TransportHealth

-- The logger, the interval and the fault decider are left out: the decisions are arguments.
pub record NodeSession : Type 0 where
  pub node_id : String
  pub node_addr : String
  pub node_port : ℤ
  pub peers : GoMap PeerState

pub data SendError : Type 0 where
  peer_not_found cancelled not_dialed not_shaken not_delivered : SendError

-- A call of SendEnvelope at a host and port, with its request.
pub record EnvelopeCall (Bytes : Type 0) : Type 0 where
  pub host : String
  pub port : ℤ
  pub from : String
  pub to : String
  pub protocol : String
  pub payload : Bytes

-- What Send returns, `none` where it returns nil, and the calls that it makes.
pub record Sent (Bytes : Type 0) : Type 0 where
  pub error : Option SendError
  pub calls : List (EnvelopeCall Bytes)

abbrev pub unsent : {Bytes : Type 0} → Option SendError → Sent Bytes
unsent error = record { error = error; calls = [] }

-- What the network does to one operation.
pub record Network : Type 0 where
  pub dials : Bool
  pub shakes : Bool
  pub answers : Bool

-- NewNodeSession
unfoldable pub new_node_session : String → String → ℤ → NodeSession
new_node_session node_addr node_id node_port = record {
  node_id = node_id;
  node_addr = node_addr;
  node_port = node_port;
  peers = [];
}

unfoldable pub should_dial : String → String → Bool
should_dial self peer = str_ltb self peer

unfoldable pub update_success : ℕ → PeerState → PeerState
update_success now ps = record ps {
  last_success = some now;
  fail_count = pos 0;
  health = peer_alive;
}

unfoldable pub update_failure : PeerState → PeerState
update_failure ps =
    let count = inc64 ps.fail_count in
    record ps {
      fail_count = count;
      health =
          if count =ℤ= pos 1
          then peer_suspect
          else if not (ltb_ℤ count (pos 2))
          then peer_dead
          else ps.health;
    }

-- newSet[p.ID] = p, for each of the peers
unfoldable pub peer_set : GoMap PeerInfo → List PeerInfo → GoMap PeerInfo
peer_set set [] = set
peer_set set (p ∷ peers) = peer_set (insert set p.id p) peers

-- 1: the peers that are no longer there go.
unfoldable pub keep_present : GoMap PeerInfo → GoMap PeerState → GoMap PeerState
keep_present set [] = []
keep_present set ((id, ps) ∷ peers) =
    let rest = keep_present set peers in elim (at set id) [ none ↦ rest | some _ ↦ (id, ps) ∷ rest ]

unfoldable pub fresh_peer : PeerInfo → PeerState
fresh_peer info = record {
  id = info.id;
  host = info.host;
  port = info.port;
  connected = false;
  last_success = none;
  fail_count = pos 0;
  health = peer_suspect;
}

-- 2: the new ones come.
unfoldable pub add_new : GoMap PeerInfo → GoMap PeerState → GoMap PeerState
unfolding fresh_peer
add_new [] peers = peers
add_new ((id, info) ∷ set) peers =
    add_new set (elim (at peers id) [ none ↦ insert peers id (fresh_peer info) | some _ ↦ peers ])

unfoldable pub with_endpoint : PeerInfo → PeerState → PeerState
with_endpoint info ps =
    if not (ps.host == info.host) || not (ps.port =ℤ= info.port)
    then record ps { host = info.host; port = info.port; connected = false }
    else ps

-- 3: the endpoints are brought up to date.
unfoldable pub update_endpoints : GoMap PeerInfo → GoMap PeerState → GoMap PeerState
unfolding with_endpoint
update_endpoints [] peers = peers
update_endpoints ((id, info) ∷ set) peers =
    update_endpoints set
      (elim (at peers id) [ none ↦ peers | some ps ↦ insert peers id (with_endpoint info ps) ])

-- OnPeersUpdated
unfoldable pub on_peers_updated : NodeSession → List PeerInfo → NodeSession
unfolding peer_set keep_present add_new update_endpoints
on_peers_updated ns peers =
    let set = peer_set [] peers in
    record ns { peers = update_endpoints set (add_new set (keep_present set ns.peers)) }

-- GetTransportHealth
unfoldable pub get_transport_health : NodeSession → String → TransportHealth
get_transport_health ns id = elim (at ns.peers id) [ none ↦ peer_dead | some ps ↦ ps.health ]

-- The end of probePeer, on a peer with a connection.
unfoldable pub pinged : Network → ℕ → PeerState → PeerState
pinged net now ps = if net.answers then update_success now ps else update_failure ps

-- probePeer; the result of the handshake is not used
unfoldable pub probe_peer : String → Network → ℕ → PeerState → PeerState
unfolding pinged
probe_peer self net now ps =
    if not (should_dial self ps.id)
    then ps
    else if ps.connected
    then pinged net now ps
    else if net.dials
    then pinged net now (record ps { connected = true })
    else update_failure ps

-- probeOnce: the loop over the peers, with a decision and a network for each
unfoldable pub probe_peers :
    String → (String → Decision) → (String → Network) → ℕ → GoMap PeerState → GoMap PeerState
unfolding probe_peer
probe_peers self before_probe net now [] = []
probe_peers self before_probe net now ((id, ps) ∷ peers) =
    let rest = probe_peers self before_probe net now peers in
    if not (before_probe ps.id).allow || not (should_dial self ps.id)
    then (id, ps) ∷ rest
    else (id, probe_peer self (net ps.id) now ps) ∷ rest

-- One tick of the loop of Start: its decision, then probeOnce.
unfoldable pub probe_tick :
    Decision → (String → Decision) → (String → Network) → ℕ → NodeSession → NodeSession
unfolding probe_peers
probe_tick tick before_probe net now ns =
    if not tick.allow
    then ns
    else record ns { peers = probe_peers ns.node_id before_probe net now ns.peers }

-- The sender's text, with the address for discovery.
unfoldable pub sender_text : String → String → ℤ → String
sender_text from host port = from ++ ("@" ++ (host ++ (":" ++ print_int port)))

-- Send from the call of SendEnvelope on, at a peer with a connection.
unfoldable pub send_envelope :
    {Bytes : Type 0}
    → NodeSession
    → Envelope Bytes
    → Network
    → ℕ
    → PeerState
    → Sent Bytes × PeerState
unfolding sender_text
send_envelope {Bytes} ns env net now ps =
    let call : EnvelopeCall Bytes = record {
      host = ps.host;
      port = ps.port;
      from = sender_text env.from ns.node_addr ns.node_port;
      to = env.to;
      protocol = env.protocol;
      payload = env.payload;
    } in
    if net.answers
    then (record { error = none; calls = call ∷ [] }, update_success now ps)
    else (record { error = some not_delivered; calls = call ∷ [] }, update_failure ps)

-- Send from the lazy connection on.
unfoldable pub send_connected :
    {Bytes : Type 0}
    → NodeSession
    → Envelope Bytes
    → Network
    → ℕ
    → PeerState
    → Sent Bytes × PeerState
unfolding send_envelope
send_connected ns env net now ps =
    if ps.connected
    then send_envelope ns env net now ps
    else if not net.dials
    then (unsent (some not_dialed), ps)
    else if not net.shakes
    then (unsent (some not_shaken), record ps { connected = true })
    else send_envelope ns env net now (record ps { connected = true })

abbrev pub is_positive : ℤ → Bool
is_positive (pos zero) = false
is_positive (pos (suc d)) = true
is_positive (negsuc d) = false

-- Send up to the lazy connection: the decision, and whether its delay was cut short.
unfoldable pub send_decided :
    {Bytes : Type 0}
    → NodeSession
    → Envelope Bytes
    → Decision
    → Bool
    → Network
    → ℕ
    → PeerState
    → Sent Bytes × PeerState
unfolding send_connected
send_decided ns env decision cut_short net now ps =
    if not decision.allow
    then (unsent none, ps)
    else if is_positive decision.delay && cut_short
    then (unsent (some cancelled), ps)
    else send_connected ns env net now ps

-- Send, with the decision for each peer
unfoldable pub send :
    {Bytes : Type 0}
    → NodeSession
    → Envelope Bytes
    → (String → Decision)
    → Bool
    → Network
    → ℕ
    → Sent Bytes × NodeSession
unfolding send_decided
send ns env before_send cut_short net now = elim (at ns.peers env.to) [
  | none ↦ (unsent (some peer_not_found), ns)
  | some ps ↦
      let (result, ps') = send_decided ns env (before_send ps.id) cut_short net now ps in
      (result, record ns { peers = insert ns.peers env.to ps' })
]
