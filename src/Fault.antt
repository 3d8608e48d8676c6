-- ===== src/Fault.antt =====
-- The fault engine of a node: internal/fault/engine.go and decision.go, with the decisions of
-- internal/node/exec/decision.go. The locks make each method one step. Delays count milliseconds.
pub mod Laws
use faultlab.Prelude.{
  ℕ, String, Bool, true, false, Option, none, some, [], if◌then◌else◌, ℤ, pos, GoMap, at, insert,
  delete,
}

-- What the code uses of float64: its order and two constants.
pub record Floats : Type 1 where
  pub Float : Type 0
  pub lt : Float → Float → Bool
  pub zero_rate : Float
  pub one_rate : Float

pub record Engine (Float : Type 0) : Type 0 where
  pub crashed : Bool
  pub drop_rate : Float
  pub delay_ms : ℤ
  pub partitions : GoMap Bool

-- SendDecision, ProbeDecision and TickDecision have the same fields.
pub record Decision : Type 0 where
  pub allow : Bool
  pub delay : ℤ
  pub reason : String

pub record ReceiveDecision : Type 0 where
  pub allow : Bool
  pub reason : String

unfoldable pub or_false : Option Bool → Bool
or_false none = false
or_false (some b) = b

module _ {Float : Type 0} where
  unfoldable pub new_engine : Float → Engine Float
  new_engine zero = record { crashed = false; drop_rate = zero; delay_ms = pos 0; partitions = [] }

  -- Crash, Recover, SetDropRate, SetDelay, Partition and Heal
  unfoldable pub crash : Engine Float → Engine Float
  crash e = record e { crashed = true }

  unfoldable pub recover : Engine Float → Engine Float
  recover e = record e { crashed = false }

  unfoldable pub set_drop_rate : Engine Float → Float → Engine Float
  set_drop_rate e p = record e { drop_rate = p }

  unfoldable pub set_delay : Engine Float → ℤ → Engine Float
  set_delay e ms = record e { delay_ms = ms }

  unfoldable pub partition : Engine Float → String → Engine Float
  partition e peer = record e { partitions = insert e.partitions peer true }

  unfoldable pub heal : Engine Float → String → Engine Float
  heal e peer = record e { partitions = delete e.partitions peer }

  unfoldable pub is_partitioned : Engine Float → String → Bool
  unfolding or_false
  is_partitioned e peer = or_false (at e.partitions peer)

  -- BeforeReceive; `none` is the nil engine
  unfoldable pub before_receive : Option (Engine Float) → String → ReceiveDecision
  before_receive none peer = record { allow = true; reason = "no-fault-engine" }
  before_receive (some e) peer =
      if e.crashed
      then record { allow = false; reason = "crashed" }
      else if is_partitioned e peer
      then record { allow = false; reason = "partitioned" }
      else record { allow = true; reason = "allowed" }

  -- BeforeProbe
  unfoldable pub before_probe : Option (Engine Float) → String → Decision
  before_probe none peer = record { allow = true; delay = pos 0; reason = "no-fault-engine" }
  before_probe (some e) peer =
      if e.crashed
      then record { allow = false; delay = pos 0; reason = "crashed" }
      else if is_partitioned e peer
      then record { allow = false; delay = pos 0; reason = "partitioned" }
      else record { allow = true; delay = e.delay_ms; reason = "allowed" }

  -- BeforeTick
  unfoldable pub before_tick : Option (Engine Float) → Decision
  before_tick none = record { allow = true; delay = pos 0; reason = "no-fault-engine" }
  before_tick (some e) =
      if e.crashed
      then record { allow = false; delay = pos 0; reason = "crashed" }
      else record { allow = true; delay = e.delay_ms; reason = "allowed" }

module _ (floats : Floats) where
  open floats use {Float, lt}

  -- ShouldDrop, given what rand.Float64 returned
  unfoldable pub should_drop : Engine Float → Float → Bool
  should_drop e draw = lt draw e.drop_rate

  -- BeforeSend
  unfoldable pub before_send : Option (Engine Float) → String → Float → Decision
  before_send none peer draw = record { allow = true; delay = pos 0; reason = "no-fault-engine" }
  before_send (some e) peer draw =
      if e.crashed
      then record { allow = false; delay = pos 0; reason = "crashed" }
      else if is_partitioned e peer
      then record { allow = false; delay = pos 0; reason = "partitioned" }
      else if should_drop e draw
      then record { allow = false; delay = pos 0; reason = "dropped" }
      else record { allow = true; delay = e.delay_ms; reason = "allowed" }
