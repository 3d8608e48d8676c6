-- ===== src/Gossip/Clock.antt =====
-- Vector clocks: conflict_resolution.go, and the copies that propagation.go and crud.go make.
-- A nil clock is an empty one: every read of the source treats them alike.
pub mod Order
pub mod Merge
use faultlab.Prelude.{
  ◌≡◌, String, Bool, true, false, not, ◌&&◌, Option, none, some, List, [], ◌∷◌, length,
  if◌then◌else◌, ◌=ℕ=◌, ℤ, pos, negsuc, ltb_ℤ, GoMap, at, insert, insert_all,
}

abbrev pub Clock : Type 0
Clock = GoMap ℤ

-- vc[node], which is 0 for a node that the clock lacks
unfoldable pub clock_at : Clock → String → ℤ
clock_at vc node = elim (at vc node) [ none ↦ pos 0 | some n ↦ n ]

-- for k := range vc { allNodes[k] = true }
add_nodes : GoMap Bool → Clock → GoMap Bool
add_nodes nodes [] = nodes
add_nodes nodes ((k, _) ∷ vc) = add_nodes (insert nodes k true) vc

-- The loop over allNodes with its two flags.
scan : Clock → Clock → GoMap Bool → Bool → Bool → Bool × Bool
scan vc1 vc2 [] vc1_greater vc2_greater = (vc1_greater, vc2_greater)
scan vc1 vc2 ((node, _) ∷ rest) vc1_greater vc2_greater =
    let v1 = clock_at vc1 node in
    let v2 = clock_at vc2 node in
    scan vc1 vc2 rest (if ltb_ℤ v2 v1 then true else vc1_greater)
      (if ltb_ℤ v2 v1 then vc2_greater else if ltb_ℤ v1 v2 then true else vc2_greater)

unfoldable pub verdict : Bool × Bool → ℤ
verdict (vc1_greater, vc2_greater) =
    if vc1_greater && not vc2_greater
    then pos 1
    else if vc2_greater && not vc1_greater
    then negsuc 0
    else pos 0

-- vectorClockCompare
unfoldable pub vector_clock_compare : Clock → Clock → ℤ
unfolding add_nodes scan verdict
vector_clock_compare vc1 vc2 =
    let nodes = add_nodes (add_nodes [] vc1) vc2 in
    if length nodes =ℕ= 0 then pos 0 else verdict (scan vc1 vc2 nodes false false)

-- if clock > mergedVC[node] { mergedVC[node] = clock }
raise : Clock → String → ℤ → Clock
raise merged node clock =
    if ltb_ℤ (clock_at merged node) clock then insert merged node clock else merged

-- The loop of handleState that raises the merged clock to the incoming one.
raise_all : Clock → Clock → Clock
raise_all merged [] = merged
raise_all merged ((node, clock) ∷ rest) = raise_all (raise merged node clock) rest

-- mergedVC of handleState: a copy of the local clock, raised to the incoming one
unfoldable pub merge_clock : Clock → Clock → Clock
unfolding raise raise_all
merge_clock local incoming = raise_all (insert_all [] local) incoming
