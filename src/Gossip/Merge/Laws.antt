-- ===== src/Gossip/Merge/Laws.antt =====
-- What handleState leaves under each key.
use faultlab.Prelude.{
  ◌≡◌, refl, String, Option, none, some, [], ◌∷◌, arith, if◌then◌else◌, GoMap, at, at-insert,
  insert-IsMap, IsMap, eq_iff, ◌==◌,
}
use faultlab.Gossip.Clock.{merge_clock}
use faultlab.Gossip.Value.{Value, is_incoming_newer}
use faultlab.Gossip.State.{GossipProtocol, GossipMessage}
use faultlab.Gossip.Merge.{receive, receive_with, receive_all, handle_state}

-- The value that replaces a local one: the incoming one, under the merged clock.
abbrev pub merged : Value → Value → Value
merged local incoming = record incoming {
  vector_clock = merge_clock local.vector_clock incoming.vector_clock;
}

abbrev pub merged_first : Value → Value
merged_first v = record v { vector_clock = merge_clock [] v.vector_clock }

-- What a replica holds under one key after an incoming value, if there is one.
abbrev pub received : Option Value → Option Value → Option Value
received local none = local
received none (some v) = some (merged_first v)
received (some l) (some v) = some (if is_incoming_newer l v then merged l v else l)

at-receive_with :
    (found : Option Value) (store : GoMap Value) (k : String) (v : Value) (j : String)
    → at store k ≡ found
    → at (receive_with found store k v).0 j
      ≡ (if k == j then received (at store k) (some v) else at store j)
unfolding receive_with
at-receive_with none store k v j e = ground (arith, at-insert store k (merged_first v) j)
at-receive_with (some l) store k v j e =
    ground (arith, at-insert store k (merged l v) j, eq_iff k j)

at-receive :
    (store : GoMap Value) (k : String) (v : Value) (j : String)
    → at (receive store k v).0 j ≡ (if k == j then received (at store k) (some v) else at store j)
unfolding receive
at-receive store k v j = at-receive_with (at store k) store k v j refl

at-receive_all :
    (store m : GoMap Value) (j : String)
    → IsMap m
    → at (receive_all store m).0 j ≡ received (at store j) (at m j)
unfolding receive_all at
at-receive_all store [] j h = refl
at-receive_all store ((k, v) ∷ m) j h =
    ground (arith, at-receive_all (receive store k v).0 m j h.1, at-receive store k v j, eq_iff k j)

-- Under every key, handleState leaves the merge of the local value and the incoming one: a key that
-- only the message has is taken over, a key that only the store has is kept, and under a common key
-- the incoming value replaces the local one, with the clocks merged, exactly if it is newer.
pub at-handle_state :
    (g : GossipProtocol) (msg : GossipMessage) (k : String)
    → IsMap msg.state
    → at (handle_state g msg).0.store k ≡ received (at g.store k) (at msg.state k)
unfolding handle_state
at-handle_state g msg k h = at-receive_all g.store msg.state k h

receive_with-IsMap :
    (found : Option Value) (store : GoMap Value) (k : String) (v : Value)
    → IsMap store
    → IsMap (receive_with found store k v).0
unfolding receive_with
receive_with-IsMap none store k v h = insert-IsMap store k (merged_first v) h
receive_with-IsMap (some l) store k v h = ground (arith, insert-IsMap store k (merged l v) h)

receive_all-IsMap : (store m : GoMap Value) → IsMap store → IsMap (receive_all store m).0
unfolding receive_all receive
receive_all-IsMap store [] h = h
receive_all-IsMap store ((k, v) ∷ m) h =
    receive_all-IsMap (receive store k v).0 m (receive_with-IsMap (at store k) store k v h)

pub handle_state-IsMap :
    (g : GossipProtocol) (msg : GossipMessage) → IsMap g.store → IsMap (handle_state g msg).0.store
unfolding handle_state
handle_state-IsMap g msg h = receive_all-IsMap g.store msg.state h
