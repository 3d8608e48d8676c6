-- ===== src/Tests/GossipValues.antt =====
-- Clocks and values of the gossip protocol at concrete inputs (the cases of gossip_test.go).
use faultlab.Prelude.{
  ◌≡◌, refl, ◌↔◌, ◌⊎◌, true, at, insert, insert_all, str_ltb, [], ◌∷◌, arith, pos, negsuc,
  if◌then◌else◌,
}
use faultlab.Gossip.Clock.{Clock, clock_at, vector_clock_compare, merge_clock}
use faultlab.Gossip.Clock.Order.{Dominates, vector_clock_compare-Dominates}
use faultlab.Gossip.Value.{Value, value_to_digest_entry, is_incoming_newer, compare_value_to_digest}
use faultlab.Gossip.Value.Order.{
  Concurrent, LwwBefore, compare_value_to_digest_lem, is_incoming_newer_iff,
  is_incoming_newer_cycle,
}

abbrev newer_clock : Clock
newer_clock = ("node-a", pos 2) ∷ ("node-b", pos 1) ∷ []

abbrev older_clock : Clock
older_clock = ("node-a", pos 1) ∷ ("node-b", pos 1) ∷ []

abbrev other_clock : Clock
other_clock = ("node-a", pos 1) ∷ ("node-b", pos 2) ∷ []

clock_tests :
    (vector_clock_compare [] [] ≡ pos 0)
    × (vector_clock_compare [] (("node-a", pos 0) ∷ []) ≡ pos 0)
    × (vector_clock_compare newer_clock older_clock ≡ pos 1)
    × (vector_clock_compare (("node-a", pos 1) ∷ []) older_clock ≡ negsuc 0)
    × (vector_clock_compare newer_clock other_clock ≡ pos 0)
    × (merge_clock newer_clock other_clock ≡ ("node-a", pos 2) ∷ ("node-b", pos 2) ∷ [])
unfolding vector_clock_compare merge_clock insert clock_at at insert_all
clock_tests = (refl, refl, refl, refl, refl, refl)

vector_clock_compare-Dominates_example :
    ((vector_clock_compare newer_clock older_clock ≡ pos 1) ↔ Dominates newer_clock older_clock)
    × ((vector_clock_compare newer_clock older_clock ≡ negsuc 0)
        ↔ Dominates older_clock newer_clock)
    × ((vector_clock_compare newer_clock older_clock ≡ pos 0)
        ↔ ((¬ Dominates newer_clock older_clock) × (¬ Dominates older_clock newer_clock)))
vector_clock_compare-Dominates_example = vector_clock_compare-Dominates newer_clock older_clock

abbrev group_a : Value
group_a = record {
  datum = "groupA_update";
  version = pos 2;
  origin = "node1";
  timestamp = pos 7;
  vector_clock = ("node1", pos 2) ∷ [];
}

abbrev group_b : Value
group_b = record {
  datum = "groupB_update";
  version = pos 2;
  origin = "node4";
  timestamp = pos 7;
  vector_clock = ("node4", pos 2) ∷ [];
}

higher_origin_wins : is_incoming_newer group_a group_b ≡ true
unfolding is_incoming_newer vector_clock_compare str_ltb insert clock_at at
higher_origin_wins = refl

compare_value_to_digest_lem_example :
    compare_value_to_digest group_a (value_to_digest_entry group_b) ≡ (
      if is_incoming_newer group_a group_b
      then negsuc 0
      else if is_incoming_newer group_b group_a
      then pos 1
      else pos 0)
unfolding at
compare_value_to_digest_lem_example = compare_value_to_digest_lem group_a group_b (refl, tt)

is_incoming_newer_iff_example : (is_incoming_newer group_a group_b ≡ true) ↔ (
    Dominates group_b.vector_clock group_a.vector_clock
    ⊎ (Concurrent group_a group_b × LwwBefore group_a group_b))
is_incoming_newer_iff_example = is_incoming_newer_iff group_a group_b

-- Three writes of one key: `first` by node 1, `second` by node 1 after a clock step back, and
-- `beside` by node 2, which saw neither.
abbrev first : Value
first = record group_a { timestamp = pos 9; vector_clock = ("node1", pos 1) ∷ [] }

abbrev second : Value
second = record group_a { timestamp = pos 5; vector_clock = ("node1", pos 2) ∷ [] }

abbrev beside : Value
beside = record group_b { timestamp = pos 7; vector_clock = ("node2", pos 1) ∷ [] }

is_incoming_newer_cycle_example :
    (is_incoming_newer first second ≡ true)
    × (is_incoming_newer second beside ≡ true)
    × (is_incoming_newer beside first ≡ true)
unfolding vector_clock_compare insert clock_at at
is_incoming_newer_cycle_example =
    is_incoming_newer_cycle first beside second
      ((vector_clock_compare-Dominates second.vector_clock first.vector_clock).0.0 refl)
      ((vector_clock_compare-Dominates beside.vector_clock first.vector_clock).2.0 refl)
      ((vector_clock_compare-Dominates beside.vector_clock second.vector_clock).2.0 refl)
      (omega arith) (omega arith)
