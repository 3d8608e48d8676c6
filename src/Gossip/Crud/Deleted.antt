-- ===== src/Gossip/Crud/Deleted.antt =====
-- Delete removes the key with its clock, so replicas that still hold the key win over what follows.
use faultlab.Prelude.{
  ◌≡◌, refl, String, true, none, some, [], arith, if◌then◌else◌, ℤ, pos, ◌<ℤ◌, inc64, at, IsMap,
  eq_iff, eq_refl, ◌==◌, ◌∙◌,
}
use faultlab.Gossip.Clock.{clock_at}
use faultlab.Gossip.Clock.Order.{exceeds_complete}
use faultlab.Gossip.Clock.Merge.{IsClock, clock_at-insert, clock_at-nonneg, exceeds_of_le}
use faultlab.Gossip.Value.{Value, is_incoming_newer}
use faultlab.Gossip.State.{GossipProtocol, GossipMessage}
use faultlab.Gossip.Merge.{handle_state}
use faultlab.Gossip.Merge.Laws.{at-handle_state, merged, merged_first}
use faultlab.Gossip.Crud.{written, put, get, delete}
use faultlab.Gossip.Crud.Laws.{at-put_self, at-delete_value, newer_of_exceeds}

clock_at-nil : (node : String) → clock_at [] node ≡ pos 0
unfolding clock_at at
clock_at-nil node = refl

-- The first write of a key counts one for the writing node and nothing for the others.
clock_at-first :
    (g : GossipProtocol) (content : String) (now : ℤ) (node : String)
    → clock_at (written g none content now).vector_clock node
      ≡ (if g.node_id == node then pos 1 else pos 0)
unfolding written inc64
clock_at-first g content now node = ground (
  arith,
  clock_at-insert [] g.node_id (inc64 (clock_at [] g.node_id)) node,
  clock_at-nil node,
  clock_at-nil g.node_id,
)

first-older :
    (g : GossipProtocol) (content : String) (now : ℤ) (v : Value)
    → IsClock v.vector_clock
    → pos 1 <ℤ clock_at v.vector_clock g.node_id
    → is_incoming_newer (written g none content now) v ≡ true
first-older g content now v c seen =
    newer_of_exceeds (written g none content now) v
      (exceeds_complete _ _
        (g.node_id, ground (arith, clock_at-first g content now g.node_id, eq_refl g.node_id)))
      (exceeds_of_le _ _ λ node. ground (
        arith,
        clock_at-first g content now node,
        eq_iff g.node_id node,
        clock_at-nonneg v.vector_clock node c,
      ))

delete-node_id : (g : GossipProtocol) (key : String) → (delete g key).node_id ≡ g.node_id
unfolding delete
delete-node_id g key = ground arith

at-put-delete :
    (g : GossipProtocol) (key content : String) (now : ℤ)
    → at (put (delete g key) key content now).0.store key
      ≡ some (written (delete g key) none content now)
at-put-delete g key content now =
    at-put_self (delete g key) key content now ∙ rw (at-delete_value g key key, eq_refl key)

get-some :
    (g : GossipProtocol) (key : String) (v : Value)
    → at g.store key ≡ some v
    → get g key ≡ (v.datum, true)
unfolding get
get-some g key v e = ground arith

-- A deleted key comes back with the next STATE message that still has it.
pub deleted_returns :
    (g : GossipProtocol) (key : String) (msg : GossipMessage) (v : Value)
    → IsMap msg.state
    → at msg.state key ≡ some v
    → get (handle_state (delete g key) msg).0 key ≡ (v.datum, true)
deleted_returns g key msg v m e =
    get-some _ key (merged_first v)
      (at-handle_state (delete g key) msg key m ∙ rw (e, at-delete_value g key key, eq_refl key))

-- A write that follows a delete of the same key is lost: its clock starts again at 1, so any value
-- whose clock counts two or more writes of this node replaces it when it arrives, however old.
pub put_after_delete_lost :
    (g : GossipProtocol) (key content : String) (now : ℤ) (msg : GossipMessage) (v : Value)
    → IsMap msg.state
    → at msg.state key ≡ some v
    → IsClock v.vector_clock
    → pos 1 <ℤ clock_at v.vector_clock g.node_id
    → get (handle_state (put (delete g key) key content now).0 msg).0 key ≡ (v.datum, true)
put_after_delete_lost g key content now msg v m e c seen =
    get-some _ key (merged (written (delete g key) none content now) v) (
      at-handle_state (put (delete g key) key content now).0 msg key m
      ∙ rw (e, at-put-delete g key content now)
          (rw (first-older (delete g key) content now v c (rw (delete-node_id g key) seen))))
