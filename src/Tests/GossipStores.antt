-- ===== src/Tests/GossipStores.antt =====
-- Stores of the gossip protocol at concrete inputs.
use faultlab.Prelude.{
  Bool-cases, inl, inr, ◌↔◌, false, ◌==◌, ◌≡◌, refl, String, true, some, [], ◌∷◌, arith, pos, at,
  insert, insert_all, str_ltb,
}
use faultlab.Gossip.Clock.{clock_at, vector_clock_compare, merge_clock}
use faultlab.Gossip.Value.{Value, is_incoming_newer}
use faultlab.Gossip.State.{GossipProtocol, GossipMessage, msg_state}
use faultlab.Gossip.Merge.{handle_state}
use faultlab.Gossip.Merge.Settled.{IsValid, handle_state-no_regress, handle_state_idem}
use faultlab.Gossip.Crud.Laws.{put_newer}
use faultlab.Gossip.Crud.Deleted.{put_after_delete_lost}
use faultlab.Gossip.Crud.{put, delete, get}
use faultlab.Gossip.Digest.{digest_message, state_message, is_behind}
use faultlab.Gossip.Digest.Laws.{wanted, at-state_message}
use faultlab.Gossip.Digest.Behind.{is_behind_iff}
use mathlib.Core.Option.{some-injective}
use mathlib.Core.Path.{subst}
use faultlab.Gossip.Merge.Laws.{received, at-handle_state}
use faultlab.Gossip.Digest.Exchange.{
  Agree, IsStore, IsStore-of_All, after_answer, after_reverse, exchange-Agree,
}

abbrev pub left_x : Value
left_x = record {
  datum = "a";
  version = pos 2;
  origin = "n1";
  timestamp = pos 40;
  vector_clock = ("n1", pos 2) ∷ [];
}

abbrev pub right_x : Value
right_x = record {
  datum = "b";
  version = pos 1;
  origin = "n2";
  timestamp = pos 50;
  vector_clock = ("n2", pos 1) ∷ [];
}

abbrev pub right_y : Value
right_y = record right_x { datum = "c" }

-- Two replicas that wrote `x` beside one another.
abbrev pub left : GossipProtocol
left = record {
  node_id = "n1";
  tick = 2;
  peers = "n2" ∷ [];
  store = ("x", left_x) ∷ [];
  gossip_interval = 3;
  has_discovery_callback = false;
  force_sync_peers = [];
}

abbrev pub right : GossipProtocol
right = record left {
  node_id = "n2";
  peers = "n1" ∷ [];
  store = ("x", right_x) ∷ ("y", right_y) ∷ [];
}

left-IsStore : IsStore left.store
unfolding at
left-IsStore = IsStore-of_All left.store (refl, tt) ((refl, tt), tt)

right-IsStore : IsStore right.store
unfolding at
right-IsStore = IsStore-of_All right.store (refl, (refl, tt)) ((refl, tt), ((refl, tt), tt))

exchange-Agree_example :
    Agree (at (after_answer left right).store "x") (at (after_reverse left right).store "x")
unfolding at
exchange-Agree_example =
    exchange-Agree left right "x" left-IsStore right-IsStore (λ s. absurd (ground (arith, s.2)))

abbrev news : GossipMessage
news = record { message_type = msg_state; digest = []; state = right.store }

at-handle_state_example :
    at (handle_state left news).0.store "x" ≡ received (at left.store "x") (at news.state "x")
unfolding at
at-handle_state_example = at-handle_state left news "x" (refl, (refl, tt))

handle_state_run : get (handle_state left news).0 "x" ≡ ("b", true)
unfolding handle_state get at insert insert_all merge_clock is_incoming_newer vector_clock_compare
    clock_at str_ltb
handle_state_run = refl

-- The clock of a value that stands in `news` or `left`.
news-IsValid : (k : String) (v : Value) → at news.state k ≡ some v → IsValid v
unfolding at
news-IsValid k v e = elim (Bool-cases ("x" == k)) [
  | inl p ↦ subst IsValid (some-injective right_x v (rw p at e)) (refl, omega arith, tt)
  | inr p ↦ elim (Bool-cases ("y" == k)) [
    | inl q ↦ subst IsValid (some-injective right_y v (rw (p, q) at e)) (refl, omega arith, tt)
    | inr q ↦ absurd (cc (rw (p, q) at e))
  ]
]

left-IsValid : (k : String) (v : Value) → at left.store k ≡ some v → IsValid v
unfolding at
left-IsValid k v e = elim (Bool-cases ("x" == k)) [
  | inl p ↦ subst IsValid (some-injective left_x v (rw p at e)) (refl, omega arith, tt)
  | inr p ↦ absurd (cc (rw p at e))
]

handle_state-no_regress_example :
    (w : Value) × (at (handle_state left news).0.store "x" ≡ some w)
    × (is_incoming_newer w left_x ≡ false)
unfolding at
handle_state-no_regress_example =
    handle_state-no_regress left news "x" left_x (refl, (refl, tt)) (news-IsValid "x")
      (refl, omega arith, tt) refl

handle_state_idem_example :
    at (handle_state (handle_state left news).0 news).0.store "x"
    ≡ at (handle_state left news).0.store "x"
unfolding at
handle_state_idem_example =
    handle_state_idem left news "x" (refl, (refl, tt)) (left-IsValid "x") (news-IsValid "x")

at-state_message_example :
    at (state_message right.store (digest_message left.store).digest).state "x"
    ≡ wanted (at left.store "x") (at right.store "x")
unfolding at
at-state_message_example =
    at-state_message right.store left.store "x" (refl, (refl, tt)) (refl, tt)
      (left-IsStore.clocks "x")

is_behind_iff_example :
    (is_behind left.store (digest_message right.store).digest ≡ true)
    ↔ ((k : String) × (v : Value) × (wanted (at left.store k) (at right.store k) ≡ some v))
is_behind_iff_example =
    is_behind_iff left.store right.store right-IsStore.is_map right-IsStore.clocks

put_newer_example :
    (v : Value) × (at (put left "x" "new" (pos 1)).0.store "x" ≡ some v)
    × (v.datum ≡ "new")
    × (is_incoming_newer left_x v ≡ true)
unfolding at clock_at
put_newer_example =
    put_newer left "x" "new" (pos 1) left_x refl (refl, omega arith, tt) (omega arith)

-- What another replica still holds of the writes that node n1 made before its delete.
abbrev stale : GossipMessage
stale = record { message_type = msg_state; digest = []; state = ("x", left_x) ∷ [] }

put_after_delete_lost_example :
    get (handle_state (put (delete left "x") "x" "fresh" (pos 99)).0 stale).0 "x" ≡ ("a", true)
unfolding at clock_at
put_after_delete_lost_example =
    put_after_delete_lost left "x" "fresh" (pos 99) stale left_x (refl, tt) refl
      (refl, omega arith, tt) (omega arith)
