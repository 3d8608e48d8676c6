-- ===== src/Protocol.antt =====
-- The message format of all node protocols: internal/node/protocol/envelope.go, and codec.go as an
-- interface, since encoding/json does the work.
use faultlab.Prelude.{ℕ, String, Option, some, ◌≡◌}

pub data MessageKind : Type 0 where
  protocol_kind control_kind data_kind : MessageKind

-- `from`, `to` and so on are the fields From, To, ...; LogicalTick is a uint64.
pub record Envelope (Bytes : Type 0) : Type 0 where
  pub from : String
  pub to : String
  pub protocol : String
  pub payload : Bytes
  pub kind : MessageKind
  pub trace_metadata : String
  pub version : ℕ
  pub logical_tick : ℕ

-- EncodeJSON and DecodeJSON at one type of messages: what was encoded decodes to itself. (The list
-- that stands for a map is the map's contents; JSON keeps those.)
pub record Codec (Message : Type 0) : Type 1 where
  pub Bytes : Type 0
  pub encode : Message → Bytes
  pub decode : Bytes → Option Message
  pub decode-encode : (m : Message) → decode (encode m) ≡ some m
