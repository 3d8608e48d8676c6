-- ===== src/Gossip/Digest/Laws.antt =====
-- A digest stands for a store, and its answer holds exactly what the other side wants.
use faultlab.Prelude.{
  ◌≡◌, refl, String, Option, none, some, [], ◌∷◌, arith, if◌then◌else◌, pos, ltb_ℤ, GoMap, at,
  insert, at-insert, IsMap, insert-IsMap, eq_iff, ◌==◌, ap, ◌∙◌,
}
use faultlab.Gossip.Value.{
  Value, DigestEntry, value_to_digest_entry, is_incoming_newer, compare_value_to_digest,
}
use faultlab.Gossip.Value.Order.{compare_value_to_digest_lem, is_incoming_newer_asymm}
use faultlab.Gossip.Digest.{digest_from, digest_message, newer_entry, newer_state, state_message}

abbrev pub entry_of : Option Value → Option DigestEntry
entry_of none = none
entry_of (some v) = some (value_to_digest_entry v)

or_else {ℓ} : {A : Type ℓ} → Option A → Option A → Option A
or_else none b = b
or_else (some a) b = some a

at-digest_from :
    (digest : GoMap DigestEntry) (store : GoMap Value) (k : String)
    → IsMap store
    → at (digest_from digest store) k ≡ or_else (entry_of (at store k)) (at digest k)
unfolding digest_from at or_else
at-digest_from digest [] k m = refl
at-digest_from digest ((j, v) ∷ store) k m = ground (
  arith,
  at-digest_from (insert digest j (value_to_digest_entry v)) store k m.1,
  at-insert digest j (value_to_digest_entry v) k,
  eq_iff j k,
)

pub at-digest_message :
    (store : GoMap Value) (k : String)
    → IsMap store
    → at (digest_message store).digest k ≡ entry_of (at store k)
unfolding digest_message
at-digest_message store k m = at-digest_from [] store k m ∙ unfold at or_else in ground arith

-- What of one key is sent to a node whose digest has, or lacks, an entry.
picked : Option DigestEntry → Option Value → Option Value
picked entry none = none
picked none (some v) = some v
picked (some entry) (some v) =
    if ltb_ℤ (pos 0) (compare_value_to_digest v entry) then some v else none

at-newer_entry :
    (entry : Option DigestEntry) (state : GoMap Value) (k : String) (v : Value) (j : String)
    → at (newer_entry entry state k v) j
      ≡ (if k == j then or_else (picked entry (some v)) (at state j) else at state j)
unfolding newer_entry picked or_else
at-newer_entry none state k v j = at-insert state k v j
at-newer_entry (some entry) state k v j = ground (arith, at-insert state k v j)

at-newer_state :
    (digest : GoMap DigestEntry) (state store : GoMap Value) (k : String)
    → IsMap store
    → at (newer_state digest state store) k
      ≡ or_else (picked (at digest k) (at store k)) (at state k)
unfolding newer_state at picked or_else
at-newer_state digest state [] k m = refl
at-newer_state digest state ((j, v) ∷ store) k m = ground (
  arith,
  at-newer_state digest (newer_entry (at digest j) state j v) store k m.1,
  at-newer_entry (at digest j) state j v k,
  eq_iff j k,
)

-- The value of a store that a replica with `theirs` under the key would accept.
abbrev pub wanted : Option Value → Option Value → Option Value
wanted theirs none = none
wanted none (some v) = some v
wanted (some r) (some v) = if is_incoming_newer r v then some v else none

picked-wanted :
    (theirs mine : Option Value)
    → ((r : Value) → theirs ≡ some r → IsMap r.vector_clock)
    → or_else (picked (entry_of theirs) mine) none ≡ wanted theirs mine
unfolding picked or_else
picked-wanted none none h = refl
picked-wanted (some r) none h = refl
picked-wanted none (some v) h = refl
picked-wanted (some r) (some v) h =
    ground (arith, compare_value_to_digest_lem v r (h r refl), is_incoming_newer_asymm v r)

-- The STATE answer to a digest holds, under each key, exactly the value that the sender of the
-- digest would accept: its own keys that it lacks there or has older, and nothing else.
pub at-state_message :
    (mine theirs : GoMap Value) (k : String)
    → IsMap mine
    → IsMap theirs
    → ((r : Value) → at theirs k ≡ some r → IsMap r.vector_clock)
    → at (state_message mine (digest_message theirs).digest).state k
      ≡ wanted (at theirs k) (at mine k)
unfolding state_message
at-state_message mine theirs k m t c =
    at-newer_state (digest_message theirs).digest [] mine k m
    ∙ ap (λ e. or_else (picked e (at mine k)) (at [] k)) (at-digest_message theirs k t)
    ∙ unfold at in picked-wanted (at theirs k) (at mine k) c

newer_entry-IsMap :
    (entry : Option DigestEntry) (state : GoMap Value) (k : String) (v : Value)
    → IsMap state
    → IsMap (newer_entry entry state k v)
unfolding newer_entry
newer_entry-IsMap none state k v m = insert-IsMap state k v m
newer_entry-IsMap (some entry) state k v m = ground (arith, insert-IsMap state k v m)

newer_state-IsMap :
    (digest : GoMap DigestEntry) (state store : GoMap Value)
    → IsMap state
    → IsMap (newer_state digest state store)
unfolding newer_state
newer_state-IsMap digest state [] m = m
newer_state-IsMap digest state ((j, v) ∷ store) m =
    newer_state-IsMap digest (newer_entry (at digest j) state j v) store
      (newer_entry-IsMap (at digest j) state j v m)

pub state_message-IsMap :
    (mine : GoMap Value) (digest : GoMap DigestEntry) → IsMap (state_message mine digest).state
unfolding state_message
state_message-IsMap mine digest = newer_state-IsMap digest [] mine tt
