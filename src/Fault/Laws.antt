-- ===== src/Fault/Laws.antt =====
-- When traffic passes the fault engine.
use faultlab.Prelude.{
  ◌≡◌, String, true, false, not, ◌&&◌, some, arith, if◌then◌else◌, pos, insert, at-insert,
  at-delete, ◌==◌,
}
use faultlab.Fault.{
  Floats, Engine, partition, heal, is_partitioned, should_drop, before_send, before_receive,
  before_probe, before_tick,
}

-- Partition cuts off one peer and Heal lets it through again; no other peer is touched.
pub is_partitioned_lem :
    {Float : Type 0} (e : Engine Float) (peer other : String)
    → (is_partitioned (partition e peer) other
        ≡ (if peer == other then true else is_partitioned e other))
      × (is_partitioned (heal e peer) other
          ≡ (if peer == other then false else is_partitioned e other))
unfolding is_partitioned partition heal
is_partitioned_lem e peer other =
    ground (arith, at-insert e.partitions peer true other, at-delete e.partitions peer other)

module _ (floats : Floats) where
  open floats use {Float}

  -- A message goes out exactly if the node is not crashed, the peer is not cut off and the message
  -- is not drawn to be dropped; one comes in, and a probe runs, exactly if the first two hold; a
  -- clock tick passes exactly if the first holds. What is blocked is not delayed either, and what
  -- passes is delayed by the engine's delay.
  pub decisions :
      (e : Engine Float) (peer : String) (draw : Float)
      → let reachable = not e.crashed && not (is_partitioned e peer) in
        let sent = before_send floats (some e) peer draw in
        (sent.allow ≡ (reachable && not (should_drop floats e draw)))
        × (sent.delay ≡ (if sent.allow then e.delay_ms else pos 0))
        × ((before_receive (some e) peer).allow ≡ reachable)
        × ((before_probe (some e) peer).allow ≡ reachable)
        × ((before_probe (some e) peer).delay ≡ (if reachable then e.delay_ms else pos 0))
        × ((before_tick (some e)).allow ≡ not e.crashed)
        × ((before_tick (some e)).delay ≡ (if e.crashed then pos 0 else e.delay_ms))
  unfolding before_send before_receive before_probe before_tick
  decisions e peer draw = ground arith

  -- A partition from one peer stops what goes to it and comes from it, whatever else is set, and
  -- changes nothing for any other peer and nothing for the ticks; healing it undoes just that.
  pub partition_isolates :
      (e : Engine Float) (peer other : String) (draw : Float)
      → let cut = partition e peer in
        ((before_send floats (some cut) other draw).allow
          ≡ (not (peer == other) && (before_send floats (some e) other draw).allow))
        × ((before_receive (some cut) other).allow
            ≡ (not (peer == other) && (before_receive (some e) other).allow))
        × (before_tick (some cut) ≡ before_tick (some e))
        × (is_partitioned (heal cut peer) other ≡ (not (peer == other) && is_partitioned e other))
  unfolding before_send before_receive before_tick should_drop partition heal is_partitioned
  partition_isolates e peer other draw = ground (
    arith,
    at-insert e.partitions peer true other,
    at-delete (insert e.partitions peer true) peer other,
  )
