-- ===== src/Gossip/Crud/Laws.antt =====
-- Reads see writes, a write supersedes what it was made over, and a delete leaves no trace.
use faultlab.Prelude.{
  ◌≡◌, refl, String, true, false, none, some, [], arith, if◌then◌else◌, ℤ, pos, ◌<ℤ◌, inc64,
  lt-inc64, max_int64, at, at-insert, at-delete, insert_all, IsMap, eq_iff, eq_refl, ◌==◌, ◌∙◌,
}
use faultlab.Gossip.Clock.{clock_at, verdict}
use faultlab.Gossip.Clock.Order.{exceeds, exceeds_complete, vector_clock_compare_lem}
use faultlab.Gossip.Clock.Merge.{
  IsClock, IsClock-IsMap, clock_at-insert, clock_at-copy, exceeds_of_le,
}
use faultlab.Gossip.Value.{Value, is_incoming_newer}
use faultlab.Gossip.State.{GossipProtocol}
use faultlab.Gossip.Crud.{written, put, get, delete}

-- What is held under a key after a write: under the key written, the value with its version, and
-- under every other key what was there.
pub get-put :
    (g : GossipProtocol) (key content : String) (now : ℤ) (k : String)
    → get (put g key content now).0 k ≡ (if key == k then (content, true) else get g k)
unfolding get put
get-put g key content now k =
    ground (arith, at-insert g.store key (written g (at g.store key) content now) k)

pub at-delete_value :
    (g : GossipProtocol) (key k : String)
    → at (delete g key).store k ≡ (if key == k then none else at g.store k)
unfolding delete
at-delete_value g key k = ground (arith, at-delete g.store key k, eq_iff key k)

pub get-delete :
    (g : GossipProtocol) (key k : String)
    → get (delete g key) k ≡ (if key == k then ("", false) else get g k)
unfolding get
get-delete g key k = ground (arith, at-delete_value g key k)

pub at-put_self :
    (g : GossipProtocol) (key content : String) (now : ℤ)
    → at (put g key content now).0.store key ≡ some (written g (at g.store key) content now)
unfolding put
at-put_self g key content now = simp (at-insert, eq_refl)

-- The counter of the writing node is one higher in the clock of the new value, and no other changes.
clock_at-written :
    (g : GossipProtocol) (l : Value) (content : String) (now : ℤ) (node : String)
    → IsMap l.vector_clock
    → clock_at (written g (some l) content now).vector_clock node ≡ (
        if g.node_id == node
        then inc64 (clock_at l.vector_clock node)
        else clock_at l.vector_clock node)
unfolding written
clock_at-written g l content now node m = ground (
  arith,
  eq_iff g.node_id node,
  clock_at-copy l.vector_clock node m,
  clock_at-insert (insert_all [] l.vector_clock) g.node_id
      (inc64 (clock_at (insert_all [] l.vector_clock) g.node_id)) node,
)

pub newer_of_exceeds :
    (l v : Value)
    → exceeds v.vector_clock l.vector_clock ≡ true
    → exceeds l.vector_clock v.vector_clock ≡ false
    → is_incoming_newer l v ≡ true
unfolding is_incoming_newer verdict
newer_of_exceeds l v h k = ground (arith, vector_clock_compare_lem l.vector_clock v.vector_clock)

-- A write over a value is newer than that value for every replica, whatever the wall clocks say, as
-- long as the writing node's counter has not reached the largest int64.
pub put_newer :
    (g : GossipProtocol) (key content : String) (now : ℤ) (l : Value)
    → at g.store key ≡ some l
    → IsClock l.vector_clock
    → clock_at l.vector_clock g.node_id <ℤ pos max_int64
    → (v : Value) × (at (put g key content now).0.store key ≡ some v)
      × (v.datum ≡ content)
      × (is_incoming_newer l v ≡ true)
put_newer g key content now l e c room = (
  written g (some l) content now,
  at-put_self g key content now ∙ rw e,
  unfold written in refl,
  newer_of_exceeds l (written g (some l) content now)
      (exceeds_complete _ _ (
        g.node_id,
        ground (
          arith,
          counters g.node_id,
          eq_refl g.node_id,
          lt-inc64 (clock_at l.vector_clock g.node_id) room,
        ),
      ))
      (exceeds_of_le _ _ λ node.
        ground
          (arith, counters node, eq_iff g.node_id node, lt-inc64 (clock_at l.vector_clock node))),
)
  where
    counters :
        (node : String)
        → clock_at (written g (some l) content now).vector_clock node ≡ (
            if g.node_id == node
            then inc64 (clock_at l.vector_clock node)
            else clock_at l.vector_clock node)
    counters node = clock_at-written g l content now node (IsClock-IsMap l.vector_clock c)
