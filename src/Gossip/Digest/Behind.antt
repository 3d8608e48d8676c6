-- ===== src/Gossip/Digest/Behind.antt =====
-- When a node asks for the other side's state: the second loop of handleDigest.
use faultlab.Prelude.{
  ◌≡◌, ◌↔◌, refl, String, true, Option, none, some, [], ◌∷◌, arith, GoMap, at, insert, IsMap,
  insert-IsMap, eq_iff, eq_refl, Bool-cases, inl, inr, ◌∙◌, ap,
}
use faultlab.Gossip.Value.{Value, DigestEntry, value_to_digest_entry}
use faultlab.Gossip.Value.Order.{compare_value_to_digest_lem, is_incoming_newer_asymm}
use faultlab.Gossip.Digest.{digest_from, digest_message, behind_on, is_behind}
use faultlab.Gossip.Digest.Laws.{wanted, at-digest_message, entry_of}

is_behind_complete :
    (mine : GoMap Value) (digest : GoMap DigestEntry) (k : String) (e : DigestEntry)
    → at digest k ≡ some e
    → behind_on (at mine k) e ≡ true
    → is_behind mine digest ≡ true
unfolding is_behind at
is_behind_complete mine [] k e h b = cc
is_behind_complete mine ((j, f) ∷ digest) k e h b =
    ground (arith, eq_iff j k, is_behind_complete mine digest k e)

is_behind_sound :
    (mine : GoMap Value) (digest : GoMap DigestEntry)
    → IsMap digest
    → is_behind mine digest ≡ true
    → (k : String) × (e : DigestEntry) × (at digest k ≡ some e) × (behind_on (at mine k) e ≡ true)
unfolding is_behind at
is_behind_sound mine [] m h = absurd (cc)
is_behind_sound mine ((j, f) ∷ digest) m h = elim (Bool-cases (behind_on (at mine j) f)) [
  | inl e ↦ (j, f, rw (eq_refl j), e)
  | inr e ↦
      let (k, g, found, b) = is_behind_sound mine digest m.1 (rw e at h) in
      (k, g, ground (arith, eq_iff j k), b)
]

digest_from-IsMap :
    (digest : GoMap DigestEntry) (store : GoMap Value)
    → IsMap digest
    → IsMap (digest_from digest store)
unfolding digest_from
digest_from-IsMap digest [] m = m
digest_from-IsMap digest ((k, v) ∷ store) m =
    digest_from-IsMap (insert digest k (value_to_digest_entry v)) store
      (insert-IsMap digest k (value_to_digest_entry v) m)

digest_message-IsMap : (store : GoMap Value) → IsMap (digest_message store).digest
unfolding digest_message
digest_message-IsMap store = digest_from-IsMap [] store tt

behind_on-entry :
    (mine : Option Value) (v : Value)
    → IsMap v.vector_clock
    → behind_on mine (value_to_digest_entry v) ≡ true
    → wanted mine (some v) ≡ some v
unfolding behind_on
behind_on-entry none v m h = refl
behind_on-entry (some l) v m h =
    ground (arith, compare_value_to_digest_lem l v m, is_incoming_newer_asymm l v)

entry-behind_on :
    (mine : Option Value) (v w : Value)
    → IsMap v.vector_clock
    → wanted mine (some v) ≡ some w
    → behind_on mine (value_to_digest_entry v) ≡ true
unfolding behind_on
entry-behind_on none v w m h = refl
entry-behind_on (some l) v w m h = ground (arith, compare_value_to_digest_lem l v m)

-- A node finds itself behind a digest exactly if the digest's sender has a value, under some key,
-- that the node would accept.
pub is_behind_iff :
    (mine theirs : GoMap Value)
    → IsMap theirs
    → ((k : String) (v : Value) → at theirs k ≡ some v → IsMap v.vector_clock)
    → (is_behind mine (digest_message theirs).digest ≡ true)
      ↔ ((k : String) × (v : Value) × (wanted (at mine k) (at theirs k) ≡ some v))
is_behind_iff mine theirs m c = (
  λ h.
      let (k, e, found, b) =
        is_behind_sound mine (digest_message theirs).digest (digest_message-IsMap theirs) h in
      forward k (at theirs k) refl e found b,
  λ s. backward s.0 s.1 (at theirs s.0) refl s.2,
)
  where
    forward :
        (k : String) (v : Option Value)
        → at theirs k ≡ v
        → (e : DigestEntry) → at (digest_message theirs).digest k ≡ some e
        → behind_on (at mine k) e ≡ true
        → (k : String) × (v : Value) × (wanted (at mine k) (at theirs k) ≡ some v)
    forward k none p e found b = absurd (cc (at-digest_message theirs k m, ap entry_of p))
    forward k (some v) p e found b = (
      k,
      v,
      rw p (behind_on-entry (at mine k) v (c k v p) (ground (arith, at-digest_message theirs k m))),
    )

    backward :
        (k : String) (w : Value) (v : Option Value)
        → at theirs k ≡ v
        → wanted (at mine k) (at theirs k) ≡ some w
        → is_behind mine (digest_message theirs).digest ≡ true
    backward k w none p h = absurd (cc (rw p at h))
    backward k w (some v) p h =
        is_behind_complete mine (digest_message theirs).digest k (value_to_digest_entry v)
          (at-digest_message theirs k m ∙ ap entry_of p)
          (entry-behind_on (at mine k) v w (c k v p) (rw p at h))
