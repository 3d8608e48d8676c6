-- ===== src/Gossip/Digest/Exchange.antt =====
-- One whole exchange between two replicas: the digest of the first, the STATE answer of the second,
-- its own digest, and the STATE answer of the first.
use faultlab.Prelude.{
  ◌≡◌, String, false, Option, none, some, [], arith, GoMap, at, IsMap, ap, ◌∙◌, if◌then◌else◌,
  Bool-cases, Option-cases, inl, inr, All, ◌∷◌, ◌==◌,
}
use mathlib.Core.Path.{subst}
use mathlib.Core.Option.{some-injective}
use faultlab.Gossip.Value.{Value}
use faultlab.Gossip.Value.Order.{SameStamp, SameStamp-of_tie}
use faultlab.Gossip.State.{GossipProtocol}
use faultlab.Gossip.Merge.{handle_state}
use faultlab.Gossip.Merge.Laws.{received, at-handle_state, handle_state-IsMap}
use faultlab.Gossip.Digest.{digest_message, state_message, is_behind}
use faultlab.Gossip.Digest.Behind.{is_behind_iff}
use faultlab.Gossip.Digest.Laws.{wanted, at-state_message, state_message-IsMap}

-- Both lack the key, or both hold the same data under the same stamp. (The clocks may differ: the
-- side that accepted has merged them.)
abbrev pub Agree : Option Value → Option Value → Type 0
Agree none none = Unit
Agree (some a) (some b) = (a.datum ≡ b.datum) × SameStamp a b
Agree _ _ = ⊥

-- The stamp names the write: values with one stamp hold one datum.
abbrev pub StampNamesWrite : Option Value → Option Value → Type 0
StampNamesWrite (some a) (some b) = SameStamp a b → a.datum ≡ b.datum
StampNamesWrite _ _ = Unit

received-Agree :
    (r g : Option Value)
    → StampNamesWrite r g
    → let r' = received r (wanted r g) in Agree r' (received g (wanted g r'))
received-Agree none none n = tt
received-Agree none (some v) n = ground arith
received-Agree (some r) none n = ground arith
received-Agree (some r) (some v) n = ground (arith, SameStamp-of_tie r v)

-- The same where the second replica wants nothing, so that no second digest is sent.
unasked-Agree :
    (r g : Option Value)
    → StampNamesWrite r g
    → wanted g r ≡ none
    → Agree (received r (wanted r g)) g
unasked-Agree none none n h = tt
unasked-Agree none (some v) n h = ground arith
unasked-Agree (some r) none n h = absurd (cc)
unasked-Agree (some r) (some v) n h = ground (arith, SameStamp-of_tie r v)

-- A store in which each key stands once, with a well-formed clock.
pub record IsStore (store : GoMap Value) : Type 0 where
  pub is_map : IsMap store
  pub clocks : (k : String) (v : Value) → at store k ≡ some v → IsMap v.vector_clock

-- The first replica after the STATE answer to its digest.
abbrev pub after_answer : GossipProtocol → GossipProtocol → GossipProtocol
after_answer a b = (handle_state a (state_message b.store (digest_message a.store).digest)).0

-- The second replica: if the digest showed that it is behind, it has sent its own and got the
-- answer.
abbrev pub after_reverse : GossipProtocol → GossipProtocol → GossipProtocol
after_reverse a b =
    if is_behind b.store (digest_message a.store).digest
    then (handle_state b (state_message (after_answer a b).store (digest_message b.store).digest)).0
    else b

at-after_answer :
    (a b : GossipProtocol) (k : String)
    → IsStore a.store
    → IsStore b.store
    → at (after_answer a b).store k ≡ received (at a.store k) (wanted (at a.store k) (at b.store k))
at-after_answer a b k ha hb =
    at-handle_state a (state_message b.store (digest_message a.store).digest) k
      (state_message-IsMap b.store (digest_message a.store).digest)
    ∙ ap (received (at a.store k))
        (at-state_message b.store a.store k hb.is_map ha.is_map (ha.clocks k))

-- After one exchange two replicas agree on every key, whoever had what, as long as two writes of the
-- key with one stamp have one datum.
pub exchange-Agree :
    (a b : GossipProtocol) (k : String)
    → IsStore a.store
    → IsStore b.store
    → StampNamesWrite (at a.store k) (at b.store k)
    → Agree (at (after_answer a b).store k) (at (after_reverse a b).store k)
exchange-Agree a b k ha hb n =
    elim (Bool-cases (is_behind b.store (digest_message a.store).digest)) [
      | inl e ↦ rw e (
          rw
            (at-handle_state b
              (state_message (after_answer a b).store (digest_message b.store).digest) k
              (state_message-IsMap (after_answer a b).store (digest_message b.store).digest))
            (rw
              (at-state_message (after_answer a b).store b.store k
                (handle_state-IsMap a _ ha.is_map) hb.is_map (hb.clocks k))
              (rw (at-after_answer a b k ha hb) (received-Agree (at a.store k) (at b.store k) n))))
      | inr e ↦ rw e (
          rw (at-after_answer a b k ha hb)
            (unasked-Agree (at a.store k) (at b.store k) n (nothing_wanted e)))
    ]
  where
    nothing_wanted :
        is_behind b.store (digest_message a.store).digest ≡ false
        → wanted (at b.store k) (at a.store k) ≡ none
    nothing_wanted e = elim (Option-cases (wanted (at b.store k) (at a.store k))) [
      | inl h ↦ h
      | inr (w, h) ↦ absurd (cc ((is_behind_iff b.store a.store ha.is_map ha.clocks).1 (k, w, h)))
    ]

clocks_of_All :
    (store : GoMap Value)
    → All (λ e. IsMap e.1.vector_clock) store
    → (k : String) (v : Value) → at store k ≡ some v
    → IsMap v.vector_clock
unfolding at
clocks_of_All [] h k v e = absurd (cc)
clocks_of_All ((j, w) ∷ store) h k v e = elim (Bool-cases (j == k)) [
  | inl same ↦ subst (λ u. IsMap u.vector_clock) (some-injective w v (rw same at e)) h.0
  | inr other ↦ clocks_of_All store h.1 k v (rw other at e)
]

pub IsStore-of_All :
    (store : GoMap Value) → IsMap store → All (λ e. IsMap e.1.vector_clock) store → IsStore store
IsStore-of_All store m h = record { is_map = m; clocks = clocks_of_All store h }
